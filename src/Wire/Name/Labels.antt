-- ===== src/Wire/Name/Labels.antt =====
-- Domain names as lists of labels, and their two written forms.
use dnsdata_go.Common.{
  ◌≤◌, ◌<◌, ◌≡◌, ◌≢◌, refl, arith, Bool, true, ◌&&◌, List, [], ◌∷◌, ◌++◌, leb, length, All, Bytes,
}

-- A label as text: not empty, no dot.
abbrev pub IsLabelText : Bytes → Type 0
IsLabelText l = (0 < length l) × All (λ c. c ≢ b'.') l

-- A label that the wire form can hold.
abbrev pub IsLabel : Bytes → Type 0
IsLabel l = (0 < length l) × (length l ≤ 63) × All (λ c. c ≢ b'.') l

-- Each label followed by a dot.
abbrev pub labels_text : List Bytes → Bytes
labels_text [] = []
labels_text (l ∷ ls) = l ++ b'.' ∷ labels_text ls

-- `assembleName` of wire/name_decompress.go.
unfoldable pub assemble_name : List Bytes → Bytes
assemble_name [] = b'.' ∷ []
assemble_name (l ∷ ls) = labels_text (l ∷ ls)

-- Each label behind its length, and the root octet.
abbrev pub labels_wire : List Bytes → Bytes
labels_wire [] = 0 ∷ []
labels_wire (l ∷ ls) = length l ∷ l ++ labels_wire ls

abbrev pub labels_fit : List Bytes → Bool
labels_fit [] = true
labels_fit (l ∷ ls) = leb (length l) 63 && labels_fit ls

pub labels_fit_lem : (ls : List Bytes) → All IsLabel ls → labels_fit ls ≡ true
labels_fit_lem [] h = refl
labels_fit_lem (l ∷ ls) (h, hs) = ground (arith, labels_fit_lem ls hs)

pub IsLabelText-of_IsLabel : (ls : List Bytes) → All IsLabel ls → All IsLabelText ls
IsLabelText-of_IsLabel [] h = tt
IsLabelText-of_IsLabel (l ∷ ls) (h, hs) = ((h.0, h.2), IsLabelText-of_IsLabel ls hs)
