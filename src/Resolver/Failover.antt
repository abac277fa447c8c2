-- ===== src/Resolver/Failover.antt =====
-- The loop over the servers in `QueryRaw` of resolver/auth, resolver/dot and resolver/doh.
pub mod First
use dnsdata_go.Common.{ℕ, suc, List, [], ◌∷◌, Option, none, some, Bytes, Result, ok, err}

-- The sentinels of the clients' errors.go, by what they say. `transport_failed` is ErrAuth, ErrDoT or
-- ErrDoH, `no_servers` and `all_failed` are also ErrNoProviders and ErrAllProvidersFailed, and
-- `joined` is `errors.Join`.
pub data ClientError : Type 0 where
  transport_failed no_servers all_failed udp_truncated response_too_short id_mismatch : ClientError
  unexpected_status unexpected_content_type : ClientError
  joined : ClientError → ClientError → ClientError

-- `if firstErr == nil { firstErr = err }`
abbrev pub keep_first : Option ClientError → ClientError → ClientError
keep_first none e = e
keep_first (some first) e = first

-- One try of a server, by the number of those before it, so that a server may answer differently when
-- it is listed twice.
abbrev pub Ask : Type 0
Ask = ℕ → Bytes → Result ClientError Bytes

-- The loop, with the tries made and the first error.
unfoldable pub ask_servers : Ask → ℕ → List Bytes → Option ClientError → Result ClientError Bytes
ask_servers ask n [] none = err all_failed
ask_servers ask n [] (some first) = err (joined all_failed first)
ask_servers ask n (addr ∷ servers) first =
    let rest = ask_servers ask (suc n) servers in
    elim (ask n addr) [ ok resp ↦ ok resp | err e ↦ rest (some (keep_first first e)) ]

-- `QueryRaw`
unfoldable pub query_raw : Ask → List Bytes → Result ClientError Bytes
unfolding ask_servers
query_raw ask [] = err no_servers
query_raw ask (addr ∷ servers) = ask_servers ask 0 (addr ∷ servers) none
