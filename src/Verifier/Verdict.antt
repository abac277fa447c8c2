-- ===== src/Verifier/Verdict.antt =====
-- verifier/verdict.go, and `combineVerdicts` of verifier/chain.go.
pub mod Worst
use dnsdata_go.Common.{ℕ, Bool, true, false, ◌||◌, List, [], ◌∷◌, if◌then◌else◌, Bytes, equal}

pub data Verdict : Type 0 where
  indeterminate secure secure_no_data secure_nx_domain insecure bogus : Verdict

-- `a == b` of two verdicts.
abbrev pub same_verdict : Verdict → Verdict → Bool
same_verdict indeterminate indeterminate = true
same_verdict secure secure = true
same_verdict secure_no_data secure_no_data = true
same_verdict secure_nx_domain secure_nx_domain = true
same_verdict insecure insecure = true
same_verdict bogus bogus = true
same_verdict _ _ = false

-- The mnemonics.
abbrev secure_text : Bytes
secure_text = b's' ∷ b'e' ∷ b'c' ∷ b'u' ∷ b'r' ∷ b'e' ∷ []

abbrev no_data_text : Bytes
no_data_text =
    b's' ∷ b'e' ∷ b'c' ∷ b'u' ∷ b'r' ∷ b'e' ∷ b'-' ∷ b'n' ∷ b'o' ∷ b'd' ∷ b'a' ∷ b't' ∷ b'a' ∷ []

abbrev nx_domain_text : Bytes
nx_domain_text =
    b's' ∷ b'e' ∷ b'c' ∷ b'u' ∷ b'r' ∷ b'e' ∷ b'-' ∷ b'n' ∷ b'x' ∷ b'd' ∷ b'o' ∷ b'm' ∷ b'a' ∷ b'i'
    ∷ b'n' ∷ []

abbrev insecure_text : Bytes
insecure_text = b'i' ∷ b'n' ∷ b's' ∷ b'e' ∷ b'c' ∷ b'u' ∷ b'r' ∷ b'e' ∷ []

abbrev bogus_text : Bytes
bogus_text = b'b' ∷ b'o' ∷ b'g' ∷ b'u' ∷ b's' ∷ []

abbrev indeterminate_text : Bytes
indeterminate_text =
    b'i' ∷ b'n' ∷ b'd' ∷ b'e' ∷ b't' ∷ b'e' ∷ b'r' ∷ b'm' ∷ b'i' ∷ b'n' ∷ b'a' ∷ b't' ∷ b'e' ∷ []

-- `String`, on the six verdicts.
unfoldable pub verdict_text : Verdict → Bytes
verdict_text secure = secure_text
verdict_text secure_no_data = no_data_text
verdict_text secure_nx_domain = nx_domain_text
verdict_text insecure = insecure_text
verdict_text bogus = bogus_text
verdict_text indeterminate = indeterminate_text

-- The switch of `UnmarshalJSON`.
unfoldable pub verdict_of_text : Bytes → Verdict
verdict_of_text s =
    if equal s secure_text
    then secure
    else if equal s no_data_text
    then secure_no_data
    else if equal s nx_domain_text
    then secure_nx_domain
    else if equal s insecure_text
    then insecure
    else if equal s bogus_text
    then bogus
    else indeterminate

-- `combineVerdicts`
unfoldable pub combine_verdicts : Verdict → Verdict → Verdict
combine_verdicts a b =
    if same_verdict a bogus || same_verdict b bogus
    then bogus
    else if same_verdict a insecure || same_verdict b insecure
    then insecure
    else if same_verdict a indeterminate || same_verdict b indeterminate
    then indeterminate
    else if same_verdict b secure
    then a
    else b
