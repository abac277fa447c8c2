-- ===== src/Resolver/Auth.antt =====
-- resolver/auth/client.go: a query over UDP, and over TCP when the reply is truncated.
pub mod Replies
use dnsdata_go.Common.{
  ℕ, Bool, not, List, [], ◌∷◌, Option, none, some, ltb, ◌==◌, ◌&&◌, if◌then◌else◌, length, take,
  Bytes, octet, bit_and, Result, ok, err,
}
use dnsdata_go.Wire.Builder.{uint16_at}
use dnsdata_go.Resolver.Stream.{StreamError, Peer, exchange}
use dnsdata_go.Resolver.Failover.{
  ClientError, transport_failed, udp_truncated, response_too_short, id_mismatch, Ask, query_raw,
}

-- The network, by the number of the try and the address: the datagram that comes back for a query, if
-- one does before the deadline, and the connection, if one is made.
pub record Network : Type 0 where
  pub udp : ℕ → Bytes → Bytes → Option Bytes
  pub tcp : ℕ → Bytes → Option Peer

-- `validateResponse`, and `checkReply` of resolver/dot/client.go.
unfoldable pub validate_response : Bytes → ℕ → Result ClientError Bytes
validate_response resp query_id =
    if ltb (length resp) 12
    then err response_too_short
    else if not (uint16_at resp 0 == query_id)
    then err id_mismatch
    else ok resp

-- The test of the TC bit at the end of `queryUDP`.
unfoldable pub unless_truncated : Result ClientError Bytes → Result ClientError Bytes
unless_truncated (err e) = err e
unless_truncated (ok resp) =
    if not (ltb (length resp) 4) && not (bit_and (octet resp 2) 2 == 0)
    then err udp_truncated
    else ok resp

-- `queryUDP` behind the read, into a buffer that cuts a longer datagram.
unfoldable pub datagram_read : ℕ → ℕ → Option Bytes → Result ClientError Bytes
unfolding validate_response unless_truncated
datagram_read buf_size query_id none = err transport_failed
datagram_read buf_size query_id (some datagram) =
    unless_truncated (validate_response (take buf_size datagram) query_id)

-- `queryTCP` behind the exchange.
unfoldable pub exchanged : ℕ → Result StreamError Bytes → Result ClientError Bytes
unfolding validate_response
exchanged query_id (err e) = err transport_failed
exchanged query_id (ok resp) = validate_response resp query_id

-- `queryTCP`
unfoldable pub query_tcp : Option Peer → ℕ → Bytes → Result ClientError Bytes
unfolding exchanged
query_tcp none query_id query = err transport_failed
query_tcp (some peer) query_id query = exchanged query_id (exchange peer query)

-- `queryOne` behind `queryUDP`.
unfoldable pub after_udp :
    Result ClientError Bytes → Result ClientError Bytes → Result ClientError Bytes
after_udp (ok resp) tcp = ok resp
after_udp (err udp_truncated) tcp = tcp
after_udp (err e) tcp = err e

-- `queryOne`
unfoldable pub query_one : Network → ℕ → ℕ → Bytes → Ask
unfolding datagram_read query_tcp after_udp
query_one net buf_size query_id query n addr =
    after_udp (datagram_read buf_size query_id (net.udp n addr query))
      (query_tcp (net.tcp n addr) query_id query)

-- `QueryRaw` of a client with a UDP buffer and servers.
unfoldable pub auth_query_raw : Network → ℕ → List Bytes → ℕ → Bytes → Result ClientError Bytes
unfolding query_one
auth_query_raw net buf_size servers query_id query =
    query_raw (query_one net buf_size query_id query) servers
