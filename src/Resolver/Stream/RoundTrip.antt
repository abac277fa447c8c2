-- ===== src/Resolver/Stream/RoundTrip.antt =====
-- A peer that frames its reply the same way.
use dnsdata_go.Common.{
  ℕ, ◌≡◌, ◌≤◌, ◌∙◌, refl, sym, ap, arith, false, ◌++◌, some, ltb, length, length-append,
  take-append, drop-append, append_assoc, Bytes, ok, ◌>>=◌,
}
use dnsdata_go.Wire.Builder.{be16, uint16_at}
use dnsdata_go.Resolver.Stream.{
  StreamError, short_length, short_body, Peer, max_message_length, frame, read_full, message_of,
  read_body, read_message, exchange,
}

read_full-append :
    (e : StreamError) (front back : Bytes) (n : ℕ)
    → length front ≡ n
    → read_full e n (front ++ back) ≡ ok (front, back)
unfolding read_full
read_full-append e front back n h =
    let long : ltb (length (front ++ back)) (length front) ≡ false =
      ground (arith, length-append front back) in
    rw (sym h, long, take-append front back, drop-append front back) refl

uint16_at-be16 : (n : ℕ) → n ≤ 65535 → uint16_at (be16 n) 0 ≡ n
uint16_at-be16 n h = omega (arith, h)

-- A framed message is read back, with anything behind it on the stream.
pub read_message-frame :
    (message rest : Bytes)
    → length message ≤ max_message_length
    → read_message (frame message ++ rest) ≡ ok message
unfolding read_message read_body message_of frame
read_message-frame message rest h =
    let n = length message in
    ap (λ x. read_full short_length 2 x >>= read_body) (append_assoc (be16 n) message rest)
    ∙ ap (λ r. r >>= read_body) (read_full-append short_length (be16 n) (message ++ rest) 2 refl)
    ∙ ap message_of
        (read_full-append short_body message rest (uint16_at (be16 n) 0) (sym (uint16_at-be16 n h)))

-- A query that fits a length of two octets, to a peer that frames its reply, brings the reply, with
-- anything behind it on the stream; the peer has got the query framed.
pub exchange-frame :
    (peer : Peer) (query reply rest : Bytes)
    → length query ≤ max_message_length
    → length reply ≤ max_message_length
    → peer (frame query) ≡ some (frame reply ++ rest)
    → exchange peer query ≡ ok reply
unfolding exchange
exchange-frame peer query reply rest h k e =
    let fits : ltb max_message_length (length query) ≡ false = ground (arith, h) in
    rw (fits, e) (read_message-frame reply rest k)
