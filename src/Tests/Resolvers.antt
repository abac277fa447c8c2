-- ===== src/Tests/Resolvers.antt =====
-- A query to two servers: the first does not reply, and the second truncates its datagram.
use dnsdata_go.Common.{
  ℕ, ◌≡◌, refl, arith, inl, inr, List, [], ◌∷◌, ◌++◌, none, some, ◌==◌, if◌then◌else◌, Bytes, ok,
  err,
}
use mathlib.Core.List.{Memᴰ}
use dnsdata_go.Resolver.Stream.{Peer, frame, read_message, exchange}
use dnsdata_go.Resolver.Stream.RoundTrip.{exchange-frame}
use dnsdata_go.Resolver.Failover.{ClientError, transport_failed, all_failed, joined, query_raw}
use dnsdata_go.Resolver.Failover.First.{query_raw_live, query_raw_fails}
use dnsdata_go.Resolver.Auth.{Network, query_one, auth_query_raw}
use dnsdata_go.Resolver.Auth.Replies.{IsReplyTo, IsExchanged, auth_query_raw_reply}

-- A header with the id 1 and the TC bit as given, and the whole reply.
abbrev header_octets : ℕ → Bytes
header_octets flags = 0 ∷ 1 ∷ flags ∷ 0 ∷ 0 ∷ 1 ∷ 0 ∷ 0 ∷ 0 ∷ 0 ∷ 0 ∷ 0 ∷ []

abbrev whole_reply : Bytes
whole_reply = header_octets 128 ++ 9 ∷ []

abbrev framing_peer : Peer
framing_peer query = some (frame whole_reply ++ 4 ∷ [])

abbrev first_server : Bytes
first_server = b'1' ∷ []

abbrev second_server : Bytes
second_server = b'2' ∷ []

abbrev servers : List Bytes
servers = first_server ∷ second_server ∷ []

abbrev small_net : Network
small_net = record {
  udp = λ n addr query. if n == 0 then none else some (header_octets 130);
  tcp = λ n addr. some framing_peer;
}

abbrev dead_net : Network
dead_net = record { udp = λ n addr query. none; tcp = λ n addr. none }

query_runs :
    (auth_query_raw small_net 4096 servers 1 (5 ∷ []) ≡ ok whole_reply)
    × (query_one small_net 4096 1 (5 ∷ []) 1 second_server ≡ ok whole_reply)
    × (query_one dead_net 4096 1 (5 ∷ []) 0 first_server ≡ err transport_failed)
    × (query_one dead_net 4096 1 (5 ∷ []) 1 second_server ≡ err transport_failed)
unfolding auth_query_raw query_one query_raw exchange read_message frame
    dnsdata_go.Resolver.Failover.ask_servers dnsdata_go.Resolver.Auth.validate_response
    dnsdata_go.Resolver.Auth.unless_truncated dnsdata_go.Resolver.Auth.datagram_read
    dnsdata_go.Resolver.Auth.exchanged dnsdata_go.Resolver.Auth.query_tcp
    dnsdata_go.Resolver.Auth.after_udp dnsdata_go.Resolver.Stream.read_full
    dnsdata_go.Resolver.Stream.read_body dnsdata_go.Resolver.Stream.message_of
query_runs = (refl, refl, refl, refl)

exchange-frame_example : exchange framing_peer (5 ∷ []) ≡ ok whole_reply
exchange-frame_example =
    exchange-frame framing_peer (5 ∷ []) whole_reply (4 ∷ []) (omega arith) (omega arith) refl

auth_query_raw_reply_example :
    IsReplyTo 1 whole_reply
    × ((n : ℕ) × (addr : Bytes) × Memᴰ addr servers
        × IsExchanged small_net 4096 1 (5 ∷ []) n addr whole_reply)
auth_query_raw_reply_example =
    auth_query_raw_reply small_net 4096 servers 1 (5 ∷ []) whole_reply (query_runs.0)

query_raw_live_example :
    (resp : Bytes) × (query_raw (query_one small_net 4096 1 (5 ∷ [])) servers ≡ ok resp)
query_raw_live_example =
    query_raw_live (query_one small_net 4096 1 (5 ∷ [])) servers
      (inr (inl (whole_reply, query_runs.1)))

query_raw_fails_example :
    query_raw (query_one dead_net 4096 1 (5 ∷ [])) servers
    ≡ err (joined all_failed transport_failed)
query_raw_fails_example =
    query_raw_fails (query_one dead_net 4096 1 (5 ∷ [])) first_server (second_server ∷ [])
      transport_failed (query_runs.2) ((transport_failed, query_runs.3), tt)
