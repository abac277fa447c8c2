-- ===== src/Resolver/Dot.antt =====
-- resolver/dot/client.go: a query over TLS, whose connections are an argument.
use dnsdata_go.Common.{ℕ, List, Option, Bytes, Result}
use dnsdata_go.Resolver.Stream.{Peer}
use dnsdata_go.Resolver.Failover.{ClientError, Ask, query_raw}
use dnsdata_go.Resolver.Auth.{query_tcp}

-- `queryOne`, which does what `queryTCP` of resolver/auth does, over TLS.
unfoldable pub query_tls : (ℕ → Bytes → Option Peer) → ℕ → Bytes → Ask
query_tls tls query_id query n addr = query_tcp (tls n addr) query_id query

-- `QueryRaw`
unfoldable pub dot_query_raw :
    (ℕ → Bytes → Option Peer) → List Bytes → ℕ → Bytes → Result ClientError Bytes
unfolding query_tls
dot_query_raw tls servers query_id query = query_raw (query_tls tls query_id query) servers
