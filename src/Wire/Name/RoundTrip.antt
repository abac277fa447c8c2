-- ===== src/Wire/Name/RoundTrip.antt =====
-- The encoder and the decoder of wire/name.go on absolute names.
use dnsdata_go.Common.{
  ℕ, ◌≤◌, ◌<◌, ◌≡◌, ◌≢◌, inl, inr, refl, ap, ◌∙◌, arith, Bool, true, false, List, [], ◌∷◌, ◌++◌,
  map, ltb, leb, if◌then◌else◌, Bool-cases, length, length-append, length-map, All, Bytes, ok, err,
  ◌>>=◌, append-nil, append_assoc,
}
use dnsdata_go.Common.Bits.{top_bits_label}
use dnsdata_go.Wire.Name.Labels.{
  IsLabelText, IsLabel, labels_text, assemble_name, labels_wire, labels_fit, labels_fit_lem,
  IsLabelText-of_IsLabel,
}
use dnsdata_go.Wire.Name.{
  label_too_long, name_too_long, ascii_to_lower, put_label, after_dot, encode_from, check_length,
  encode_name, domain_name_to_wire, domain_name_to_wire_preserve_case, decode_from,
  wire_to_domain_name,
}

module _ (fold : ℕ → ℕ) where
  -- The encoder reads the label up to the dot.
  encode_from_label :
      (lab out label rest : Bytes)
      → All (λ c. c ≢ b'.') lab
      → encode_from fold out label (lab ++ b'.' ∷ rest) ≡ (
          put_label fold out (label ++ lab) >>= λ out'.
          encode_from fold (after_dot out' rest) [] rest)
  unfolding encode_from
  encode_from_label [] out label rest h = rw append-nil
  encode_from_label (c ∷ cs) out label rest (h, hs) =
      ground
        (arith, encode_from_label cs out (label ++ c ∷ []) rest hs, append_assoc label (c ∷ []) cs)

  put_label_fits :
      (out l : Bytes)
      → 0 < length l
      → length l ≤ 63
      → put_label fold out l ≡ ok (out ++ length l ∷ map fold l)
  unfolding put_label
  put_label_fits out [] h k = absurd (omega arith)
  put_label_fits out (c ∷ cs) h k = ground arith

  put_label_long : (out l : Bytes) → 63 < length l → put_label fold out l ≡ err label_too_long
  unfolding put_label
  put_label_long out [] k = absurd (omega arith)
  put_label_long out (c ∷ cs) k = ground arith

  after_dot-append : (out l rest : Bytes) → 0 < length l → after_dot out (l ++ rest) ≡ out
  unfolding after_dot
  after_dot-append out [] rest h = absurd (omega arith)
  after_dot-append out (c ∷ cs) rest h = refl

  encode_from_end : (out : Bytes) → encode_from fold (after_dot out []) [] [] ≡ ok (out ++ 0 ∷ [])
  unfolding encode_from after_dot put_label
  encode_from_end out = refl

  -- From behind a dot: the rest of the name is written, label by label.
  encode_from_labels :
      (ls : List Bytes) (out : Bytes)
      → All IsLabelText ls
      → encode_from fold (after_dot out (labels_text ls)) [] (labels_text ls) ≡ (
          if labels_fit ls then ok (out ++ labels_wire (map (map fold) ls)) else err label_too_long)
  encode_from_labels [] out h = encode_from_end out
  encode_from_labels (l ∷ ls) out (h, hs) =
      rw (after_dot-append out l _ h.0, encode_from_label l out [] _ h.1)
        (elim (Bool-cases (leb (length l) 63)) [
          | inr long ↦ rw (put_label_long out l (ground arith), long) refl
          | inl fits ↦
              let out' : Bytes = out ++ length l ∷ map fold l in
              ground (
                arith,
                put_label_fits out l h.0,
                encode_from_labels ls out' hs,
                length-map fold l,
                append_assoc out (length l ∷ map fold l) (labels_wire (map (map fold) ls)),
              )
        ])

  -- `domainNameToWire` on an absolute name.
  pub encode_name-assemble :
      (ls : List Bytes)
      → All IsLabelText ls
      → encode_name fold (assemble_name ls) ≡ (
          if labels_fit ls
          then check_length (labels_wire (map (map fold) ls))
          else err label_too_long)
  unfolding encode_name assemble_name
  encode_name-assemble [] h = unfold encode_from put_label after_dot in refl
  encode_name-assemble (l ∷ ls) h =
      ground (
        arith,
        encode_from_labels (l ∷ ls) [] h,
        after_dot-append [] l (b'.' ∷ labels_text ls) h.0.0,
      )

decode_from_label :
    (l : Bytes) (first : Bool) (out rest : Bytes)
    → decode_from (length l) first out (l ++ rest) ≡ decode_from 0 first (out ++ l) rest
unfolding decode_from
decode_from_label [] first out rest = rw append-nil
decode_from_label (c ∷ cs) first out rest =
    decode_from_label cs first (out ++ c ∷ []) rest ∙ rw append_assoc

-- One label, with the dot in front of it unless it is the first.
decode_from_next :
    (l : Bytes) (first : Bool) (out rest : Bytes)
    → IsLabel l
    → decode_from 0 first out (length l ∷ l ++ rest)
      ≡ decode_from 0 false ((if first then out else out ++ b'.' ∷ []) ++ l) rest
decode_from_next l first out rest h =
    let read = decode_from_label l false (if first then out else out ++ b'.' ∷ []) rest in
    unfold decode_from in ground (arith, top_bits_label (length l), length-append l rest, read)

decode_from_labels :
    (ls : List Bytes) (out : Bytes)
    → All IsLabel ls
    → decode_from 0 false out (labels_wire ls) ≡ ok (out ++ b'.' ∷ labels_text ls)
decode_from_labels [] out h = unfold decode_from in refl
decode_from_labels (l ∷ ls) out (h, hs) =
    decode_from_next l false out (labels_wire ls) h
    ∙ decode_from_labels ls ((out ++ b'.' ∷ []) ++ l) hs
    ∙ ap ok (rw (append_assoc, append_assoc) refl)

-- `WireToDomainName` reads the wire form of an absolute name, whatever its length.
pub decode-labels_wire :
    (ls : List Bytes)
    → All IsLabel ls
    → wire_to_domain_name (labels_wire ls) ≡ ok (assemble_name ls)
unfolding wire_to_domain_name assemble_name
decode-labels_wire [] h = unfold decode_from in refl
decode-labels_wire (l ∷ ls) (h, hs) =
    decode_from_next l true [] (labels_wire ls) h ∙ decode_from_labels ls l hs

-- A map of octets that makes no dot keeps labels labels.
module _ (fold : ℕ → ℕ) (no_dot : (c : ℕ) → c ≢ b'.' → fold c ≢ b'.') where
  map_no_dot : (l : Bytes) → All (λ c. c ≢ b'.') l → All (λ c. c ≢ b'.') (map fold l)
  map_no_dot [] h = tt
  map_no_dot (c ∷ cs) (h, hs) = (no_dot c h, map_no_dot cs hs)

  pub map-IsLabel : (ls : List Bytes) → All IsLabel ls → All IsLabel (map (map fold) ls)
  map-IsLabel [] h = tt
  map-IsLabel (l ∷ ls) (h, hs) = (
    (omega (arith, length-map fold l), omega (arith, length-map fold l), map_no_dot l h.2),
    map-IsLabel ls hs,
  )

  pub length-labels_wire-map :
      (ls : List Bytes) → length (labels_wire (map (map fold) ls)) ≡ length (labels_wire ls)
  length-labels_wire-map [] = refl
  length-labels_wire-map (l ∷ ls) = omega (
    arith,
    length-map fold l,
    length-append l (labels_wire ls),
    length-append (map fold l) (labels_wire (map (map fold) ls)),
    length-labels_wire-map ls,
  )

  decode-encode :
      (ls : List Bytes)
      → All IsLabel ls
      → length (labels_wire ls) ≤ 255
      → (encode_name fold (assemble_name ls) >>= wire_to_domain_name)
        ≡ ok (assemble_name (map (map fold) ls))
  decode-encode ls h k =
      rw (encode_name-assemble fold ls (IsLabelText-of_IsLabel ls h), labels_fit_lem ls h)
        (ground (
          arith,
          length-labels_wire-map ls,
          decode-labels_wire (map (map fold) ls) (map-IsLabel ls h),
        ))

pub lower_no_dot : (c : ℕ) → c ≢ b'.' → ascii_to_lower c ≢ b'.'
unfolding ascii_to_lower
lower_no_dot c h = ground arith

map_same : (l : Bytes) → map (λ b. b) l ≡ l
map_same [] = refl
map_same (c ∷ cs) = ap (◌∷◌ c) (map_same cs)

map-map_same : (ls : List Bytes) → map (map (λ b. b)) ls ≡ ls
map-map_same [] = refl
map-map_same (l ∷ ls) = cc (map_same l, map-map_same ls)

-- Decoding what either encoder wrote for an absolute name of labels of 1 to 63 octets, with a wire
-- form of at most 255 octets, gives the name back: as it was written for the encoder that keeps
-- the case, and in lower case for the other.
pub decode_of_encode :
    (ls : List Bytes)
    → All IsLabel ls
    → length (labels_wire ls) ≤ 255
    → ((domain_name_to_wire_preserve_case (assemble_name ls) >>= wire_to_domain_name)
        ≡ ok (assemble_name ls))
      × ((domain_name_to_wire (assemble_name ls) >>= wire_to_domain_name)
          ≡ ok (assemble_name (map (map ascii_to_lower) ls)))
unfolding domain_name_to_wire domain_name_to_wire_preserve_case
decode_of_encode ls h k = (
  rw map-map_same at (decode-encode (λ b. b) (λ c n. n) ls h k),
  decode-encode ascii_to_lower lower_no_dot ls h k,
)

-- The encoder on every absolute name of non-empty labels: the wire form in lower case, an error
-- where a label has more than 63 octets, and otherwise an error where the form has more than 255.
pub encode_branches :
    (ls : List Bytes)
    → All IsLabelText ls
    → domain_name_to_wire (assemble_name ls) ≡ (
        if labels_fit ls
        then if ltb 255 (length (labels_wire ls))
          then err name_too_long
          else ok (labels_wire (map (map ascii_to_lower) ls))
        else err label_too_long)
unfolding domain_name_to_wire
encode_branches ls h = ground (
  arith,
  encode_name-assemble ascii_to_lower ls h,
  length-labels_wire-map ascii_to_lower lower_no_dot ls,
)
