-- ===== src/Wire/Decompress/Uncompressed.antt =====
-- `ParseDomainName` on the wire form of a name, anywhere in a message.
use dnsdata_go.Common.{
  ℕ, suc, ◌+◌, ◌≤◌, ◌<◌, ◌≡◌, refl, sym, ◌∙◌, subst, arith, List, [], ◌∷◌, ◌++◌, length, take, drop,
  All, Bytes, octet, ok, append_assoc, length-append, get_or-append, take-append,
}
use dnsdata_go.Common.Bits.{top_bits_label}
use dnsdata_go.Wire.Name.Labels.{IsLabel, assemble_name, labels_wire}
use dnsdata_go.Wire.Decompress.{parse_domain_name}
use dnsdata_go.Wire.Decompress.Complete.{parse_domain_name_complete}
use dnsdata_go.Wire.Decompress.Relation.{NameAt, root, label, name_end}

-- A name with these labels and no pointer stands at `pos`, and ends before `stop`.
abbrev Plain : Bytes → ℕ → List Bytes → ℕ → Type 0
Plain msg pos ls stop = (size : ℕ) × (at : NameAt msg pos ls 0 size) × (name_end at ≡ stop)

Plain-label :
    (msg : Bytes) (pos n stop : ℕ) (l : Bytes) (ls : List Bytes)
    → octet msg pos ≡ n
    → take n (drop (pos + 1) msg) ≡ l
    → 0 < n
    → n ≤ 63
    → pos + 1 + n ≤ length msg
    → Plain msg (pos + 1 + n) ls stop
    → Plain msg pos (l ∷ ls) stop
Plain-label msg pos n stop l ls en el low high fits rest =
    rw (← el, ← en)
      (let (size, at, e) = subst (λ m. Plain msg (pos + 1 + m) ls stop) (sym en) rest in
        (
          suc size,
          label (omega arith) (top_bits_label _ (omega arith)) (omega arith) (omega arith) at,
          e,
        ))

octet-append : (pre : Bytes) (y : ℕ) (ys : Bytes) → octet (pre ++ y ∷ ys) (length pre) ≡ y
octet-append pre y ys = get_or-append pre y ys 0

drop-behind : (pre : Bytes) (n : ℕ) (ys : Bytes) → drop (length pre + 1) (pre ++ n ∷ ys) ≡ ys
drop-behind [] n ys = refl
drop-behind (c ∷ cs) n ys =
    let e : suc (length cs) + 1 ≡ suc (length cs + 1) = omega arith in rw e (drop-behind cs n ys)

-- The message, read from behind its first label.
regroup :
    (pre l w post : Bytes) (n : ℕ) → pre ++ ((n ∷ l ++ w) ++ post) ≡ (pre ++ n ∷ l) ++ (w ++ post)
regroup pre l w post n = rw (append_assoc, append_assoc) refl

Plain-cast :
    {msg msg' : Bytes} {pos pos' stop stop' : ℕ} (ls : List Bytes)
    → msg ≡ msg'
    → pos ≡ pos'
    → stop ≡ stop'
    → Plain msg pos ls stop
    → Plain msg' pos' ls stop'
Plain-cast ls a b c p = rw (← a, ← b, ← c) p

Plain-labels_wire :
    (ls : List Bytes) (pre post : Bytes)
    → All IsLabel ls
    → Plain (pre ++ (labels_wire ls ++ post)) (length pre) ls (length pre + length (labels_wire ls))
Plain-labels_wire [] pre post h =
    (0, root (omega (arith, length-append pre (0 ∷ post))) (octet-append pre 0 post), refl)
Plain-labels_wire (l ∷ ls) pre post (h, hs) =
    let w = labels_wire ls in
    let n = length l in
    let whole = length-append pre (n ∷ l ++ w ++ post) in
    let behind = length-append (l ++ w) post in
    let body = length-append l w in
    Plain-label _ _ n _ l ls (octet-append pre n _)
      (rw (drop-behind, append_assoc) (take-append l (w ++ post))) h.0 h.1
      (omega (arith, whole, behind, body))
      (Plain-cast ls (sym (regroup pre l w post n)) (omega (arith, length-append pre (n ∷ l)))
        (omega (arith, length-append pre (n ∷ l), body))
        (Plain-labels_wire ls (pre ++ n ∷ l) post hs))

-- `ParseDomainName` at the wire form of an absolute name, with anything in front of it and behind
-- it, returns the name and the offset behind it. No total length is asked for: names of more than
-- 255 octets are read too.
pub parse-labels_wire :
    (ls : List Bytes) (pre post : Bytes)
    → All IsLabel ls
    → parse_domain_name (pre ++ (labels_wire ls ++ post)) (length pre)
      ≡ ok (assemble_name ls, length pre + length (labels_wire ls))
parse-labels_wire ls pre post h =
    let (size, at, e) = Plain-labels_wire ls pre post h in
    parse_domain_name_complete at (omega arith) ∙ rw e
