-- ===== src/Resolver/Auth/Replies.antt =====
-- What a reply that the client of resolver/auth returns is.
use dnsdata_go.Common.{
  ℕ, ◌≡◌, ◌≤◌, ◌⊎◌, refl, sym, ap, subst, arith, Bool-cases, Result-cases, inl, inr, List, Option,
  none, some, ltb, ◌==◌, not, ◌&&◌, length, take, Bytes, octet, bit_and, Result, ok, err,
}
use mathlib.Core.List.{Memᴰ}
use dnsdata_go.Wire.Builder.{uint16_at}
use dnsdata_go.Resolver.Stream.{Peer, exchange}
use dnsdata_go.Resolver.Failover.{ClientError, udp_truncated}
use dnsdata_go.Resolver.Failover.First.{query_raw-RepliesFirst, RepliesFirst-member}
use dnsdata_go.Resolver.Auth.{
  Network, validate_response, unless_truncated, datagram_read, exchanged, query_tcp, after_udp,
  query_one, auth_query_raw,
}

-- A whole header, with the id of the query.
abbrev pub IsReplyTo : ℕ → Bytes → Type 0
IsReplyTo query_id resp = (12 ≤ length resp) × (uint16_at resp 0 ≡ query_id)

validate_response-ok :
    (resp : Bytes) (query_id : ℕ) (out : Bytes)
    → validate_response resp query_id ≡ ok out
    → (out ≡ resp) × IsReplyTo query_id resp
unfolding validate_response
validate_response-ok resp query_id out h = ground (arith, h)

unless_truncated-ok :
    (r : Result ClientError Bytes) (out : Bytes)
    → unless_truncated r ≡ ok out
    → (r ≡ ok out) × ((4 ≤ length out) → bit_and (octet out 2) 2 ≡ 0)
unfolding unless_truncated
unless_truncated-ok (err e) out h = cc
unless_truncated-ok (ok resp) out h =
    elim (Bool-cases (not (ltb (length resp) 4) && not (bit_and (octet resp 2) 2 == 0))) [
      | inl y ↦ absurd (let bad = rw y at h in cc)
      | inr n ↦
          let same : resp ≡ out = (let kept = rw n at h in cc) in
          (
            ap ok same,
            subst (λ x. 4 ≤ length x → bit_and (octet x 2) 2 ≡ 0) same (λ l. ground (arith, n, l)),
          )
    ]

-- The reply is the datagram that came back, cut to the buffer and not marked as truncated, or that was
-- truncated and the reply is the message that came back over TCP.
abbrev pub IsExchanged : Network → ℕ → ℕ → Bytes → ℕ → Bytes → Bytes → Type 0
IsExchanged net buf_size query_id query n addr resp =
    ((datagram : Bytes) × (net.udp n addr query ≡ some datagram)
      × (resp ≡ take buf_size datagram)
      × (bit_and (octet resp 2) 2 ≡ 0))
    ⊎ ((peer : Peer) × (datagram_read buf_size query_id (net.udp n addr query) ≡ err udp_truncated)
        × (net.tcp n addr ≡ some peer)
        × (exchange peer query ≡ ok resp))

datagram_read-ok :
    (buf_size query_id : ℕ) (reply : Option Bytes) (resp : Bytes)
    → datagram_read buf_size query_id reply ≡ ok resp
    → IsReplyTo query_id resp
      × ((datagram : Bytes) × (reply ≡ some datagram)
          × (resp ≡ take buf_size datagram)
          × (bit_and (octet resp 2) 2 ≡ 0))
unfolding datagram_read
datagram_read-ok buf_size query_id none resp h = cc
datagram_read-ok buf_size query_id (some datagram) resp h =
    let (v, clear) = unless_truncated-ok _ resp h in
    let (same, reply) = validate_response-ok (take buf_size datagram) query_id resp v in
    let whole = subst (IsReplyTo query_id) (sym same) reply in
    (whole, (datagram, refl, same, clear (ground (arith, whole.0))))

query_tcp-ok :
    (tcp : Option Peer) (query_id : ℕ) (query resp : Bytes)
    → query_tcp tcp query_id query ≡ ok resp
    → IsReplyTo query_id resp
      × ((peer : Peer) × (tcp ≡ some peer) × (exchange peer query ≡ ok resp))
unfolding query_tcp exchanged
query_tcp-ok none query_id query resp h = cc
query_tcp-ok (some peer) query_id query resp h = elim (Result-cases (exchange peer query)) [
  | inl (r, e) ↦
      let (same, reply) = validate_response-ok r query_id resp (rw e at h) in
      (
        subst (IsReplyTo query_id) (sym same) reply,
        (peer, refl, subst (λ x. exchange peer query ≡ ok x) (sym same) e),
      )
  | inr (x, e) ↦ absurd (let bad = rw e at h in cc)
]

after_udp-ok :
    (udp tcp : Result ClientError Bytes) (resp : Bytes)
    → after_udp udp tcp ≡ ok resp
    → (udp ≡ ok resp) ⊎ ((udp ≡ err udp_truncated) × (tcp ≡ ok resp))
unfolding after_udp
after_udp-ok udp tcp resp h = ground (arith, h)

query_one-ok :
    (net : Network) (buf_size query_id : ℕ) (query : Bytes) (n : ℕ) (addr resp : Bytes)
    → query_one net buf_size query_id query n addr ≡ ok resp
    → IsReplyTo query_id resp × IsExchanged net buf_size query_id query n addr resp
unfolding query_one
query_one-ok net buf_size query_id query n addr resp h = elim (after_udp-ok _ _ resp h) [
  | inl u ↦
      let (reply, d) = datagram_read-ok buf_size query_id (net.udp n addr query) resp u in
      (reply, inl d)
  | inr (u, t) ↦
      let (reply, (peer, e, x)) = query_tcp-ok (net.tcp n addr) query_id query resp t in
      (reply, inr (peer, u, e, x))
]

-- A reply that a query returns has a whole header with the id of the query, and one of the servers sent
-- it: in a datagram that is not marked as truncated, or over TCP behind one that is.
pub auth_query_raw_reply :
    (net : Network) (buf_size : ℕ) (servers : List Bytes) (query_id : ℕ) (query resp : Bytes)
    → auth_query_raw net buf_size servers query_id query ≡ ok resp
    → IsReplyTo query_id resp
      × ((n : ℕ) × (addr : Bytes) × Memᴰ addr servers
          × IsExchanged net buf_size query_id query n addr resp)
unfolding auth_query_raw
auth_query_raw_reply net buf_size servers query_id query resp h =
    let ask = query_one net buf_size query_id query in
    let (n, addr, m, e) =
      RepliesFirst-member ask 0 servers resp (query_raw-RepliesFirst ask servers resp h) in
    let (reply, x) = query_one-ok net buf_size query_id query n addr resp e in
    (reply, (n, addr, m, x))
