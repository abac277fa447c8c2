-- ===== src/Resolver/Failover/First.antt =====
-- Which server's reply the loop over the servers returns.
use dnsdata_go.Common.{
  ℕ, suc, ◌≡◌, ◌⊎◌, ◌∙◌, refl, inl, inr, Result-cases, List, [], ◌∷◌, Option, none, some, Bytes, ok,
  err,
}
use mathlib.Core.List.{Memᴰ}
use dnsdata_go.Resolver.Failover.{
  ClientError, all_failed, joined, keep_first, Ask, ask_servers, query_raw,
}

-- A server replies, and each one before it fails.
abbrev pub RepliesFirst : Ask → ℕ → List Bytes → Bytes → Type 0
RepliesFirst ask n [] resp = ⊥
RepliesFirst ask n (addr ∷ servers) resp =
    (ask n addr ≡ ok resp)
    ⊎ ((e : ClientError) × (ask n addr ≡ err e) × RepliesFirst ask (suc n) servers resp)

-- Some server replies.
abbrev pub HasReply : Ask → ℕ → List Bytes → Type 0
HasReply ask n [] = ⊥
HasReply ask n (addr ∷ servers) =
    ((resp : Bytes) × (ask n addr ≡ ok resp)) ⊎ HasReply ask (suc n) servers

-- Each server fails.
abbrev pub Fail : Ask → ℕ → List Bytes → Type 0
Fail ask n [] = Unit
Fail ask n (addr ∷ servers) = ((e : ClientError) × (ask n addr ≡ err e)) × Fail ask (suc n) servers

ask_servers-first :
    (ask : Ask) (n : ℕ) (servers : List Bytes) (first : Option ClientError) (resp : Bytes)
    → ask_servers ask n servers first ≡ ok resp
    → RepliesFirst ask n servers resp
unfolding ask_servers
ask_servers-first ask n [] none resp h = cc
ask_servers-first ask n [] (some e) resp h = cc
ask_servers-first ask n (addr ∷ servers) first resp h = elim (Result-cases (ask n addr)) [
  | inl (r, e) ↦ inl (e ∙ rw (e, ask_servers) at h)
  | inr (x, e) ↦ inr (x, e, ask_servers-first ask (suc n) servers _ resp (rw (e, ask_servers) at h))
]

ask_servers-replies :
    (ask : Ask) (n : ℕ) (servers : List Bytes) (first : Option ClientError)
    → HasReply ask n servers
    → (resp : Bytes) × (ask_servers ask n servers first ≡ ok resp)
unfolding ask_servers
ask_servers-replies ask n [] first h = elim h [ ]
ask_servers-replies ask n (addr ∷ servers) first (inl (resp, e)) = (resp, rw (e, ask_servers) refl)
ask_servers-replies ask n (addr ∷ servers) first (inr h) = elim (Result-cases (ask n addr)) [
  | inl (r, e) ↦ (r, rw (e, ask_servers) refl)
  | inr (x, e) ↦
      let (resp, i) = ask_servers-replies ask (suc n) servers (some (keep_first first x)) h in
      (resp, rw (e, ask_servers) i)
]

ask_servers-Fail :
    (ask : Ask) (n : ℕ) (servers : List Bytes) (first : ClientError)
    → Fail ask n servers
    → ask_servers ask n servers (some first) ≡ err (joined all_failed first)
unfolding ask_servers
ask_servers-Fail ask n [] first h = refl
ask_servers-Fail ask n (addr ∷ servers) first ((e, i), h) =
    rw (i, ask_servers) (ask_servers-Fail ask (suc n) servers first h)

-- A query returns the reply of the first server that replies, and only of it.
pub query_raw-RepliesFirst :
    (ask : Ask) (servers : List Bytes) (resp : Bytes)
    → query_raw ask servers ≡ ok resp
    → RepliesFirst ask 0 servers resp
unfolding query_raw
query_raw-RepliesFirst ask [] resp h = cc
query_raw-RepliesFirst ask (addr ∷ servers) resp h =
    ask_servers-first ask 0 (addr ∷ servers) none resp h

-- When some server replies, the query returns a reply, whatever the servers before it do.
pub query_raw_live :
    (ask : Ask) (servers : List Bytes)
    → HasReply ask 0 servers
    → (resp : Bytes) × (query_raw ask servers ≡ ok resp)
unfolding query_raw
query_raw_live ask [] h = elim h [ ]
query_raw_live ask (addr ∷ servers) h = ask_servers-replies ask 0 (addr ∷ servers) none h

-- When each server fails, the error joins the sentinel for that with the error of the first server.
pub query_raw_fails :
    (ask : Ask) (addr : Bytes) (servers : List Bytes) (e : ClientError)
    → ask 0 addr ≡ err e
    → Fail ask 1 servers
    → query_raw ask (addr ∷ servers) ≡ err (joined all_failed e)
unfolding query_raw ask_servers
query_raw_fails ask addr servers e i h = rw (i, ask_servers) (ask_servers-Fail ask 1 servers e h)

-- The server that replies first is one of the list.
pub RepliesFirst-member :
    (ask : Ask) (n : ℕ) (servers : List Bytes) (resp : Bytes)
    → RepliesFirst ask n servers resp
    → (m : ℕ) × (addr : Bytes) × Memᴰ addr servers × (ask m addr ≡ ok resp)
RepliesFirst-member ask n [] resp h = elim h [ ]
RepliesFirst-member ask n (addr ∷ servers) resp (inl e) = (n, addr, Memᴰ.head refl, e)
RepliesFirst-member ask n (addr ∷ servers) resp (inr (x, e, h)) =
    let (m, other, i, w) = RepliesFirst-member ask (suc n) servers resp h in
    (m, other, Memᴰ.tail i, w)
