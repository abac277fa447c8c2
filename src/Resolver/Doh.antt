-- ===== src/Resolver/Doh.antt =====
-- resolver/doh/client.go: a query over HTTPS, whose exchange is an argument.
use dnsdata_go.Common.{
  ℕ, Bool, true, false, ◌||◌, ◌&&◌, List, [], ◌∷◌, Option, none, some, ltb, ◌==◌, not,
  if◌then◌else◌, take, Bytes, Result, ok, err,
}
use dnsdata_go.Resolver.Failover.{
  ClientError, transport_failed, unexpected_status, unexpected_content_type, query_raw,
}

-- What a POST brings: the status, the Content-Type and the body.
pub record HttpResponse : Type 0 where
  pub status : ℕ
  pub content_type : Bytes
  pub body : Bytes

-- `strings.HasPrefix`
unfoldable pub has_prefix : Bytes → Bytes → Bool
has_prefix s [] = true
has_prefix [] (p ∷ prefix) = false
has_prefix (c ∷ s) (p ∷ prefix) = c == p && has_prefix s prefix

-- `MediaType`
abbrev pub media_type : Bytes
media_type =
    b'a' ∷ b'p' ∷ b'p' ∷ b'l' ∷ b'i' ∷ b'c' ∷ b'a' ∷ b't' ∷ b'i' ∷ b'o' ∷ b'n' ∷ b'/' ∷ b'd' ∷ b'n'
    ∷ b's' ∷ b'-' ∷ b'm' ∷ b'e' ∷ b's' ∷ b's' ∷ b'a' ∷ b'g' ∷ b'e' ∷ []

-- `sendOne` behind the request.
unfoldable pub http_answered : Option HttpResponse → Result ClientError Bytes
unfolding has_prefix
http_answered none = err transport_failed
http_answered (some resp) =
    if ltb resp.status 200 || not (ltb resp.status 300)
    then err unexpected_status
    else if not (has_prefix resp.content_type media_type)
    then err unexpected_content_type
    else ok (take 65536 resp.body)

-- `QueryRaw`, with the POST by the number of the try, the address and the query.
unfoldable pub doh_query_raw :
    (ℕ → Bytes → Bytes → Option HttpResponse) → List Bytes → Bytes → Result ClientError Bytes
unfolding http_answered
doh_query_raw post providers query = query_raw (λ n url. http_answered (post n url query)) providers
