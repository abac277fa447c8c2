-- ===== src/Tests/Mnemonics.antt =====
-- Mnemonics at concrete codes.
use dnsdata_go.Common.{◌≡◌, ◌↔◌, refl, arith, false, [], ◌∷◌, none, Bytes, ok}
use dnsdata_go.Text.{Unicode}
use dnsdata_go.Dnssec.Crypto.{DnsKey}
use dnsdata_go.Types.RrType.{rr_type_name, string_to_rr_type}
use dnsdata_go.Types.RrClass.{rr_class_name, string_to_rr_class}
use dnsdata_go.Types.Algorithm.{algorithm_to_string, string_to_algorithm}
use dnsdata_go.Types.RCode.{rcode_to_string, string_to_rcode}
use dnsdata_go.Types.OpCode.{op_code_to_string, string_to_op_code}
use dnsdata_go.Types.RoundTrip.{names_read}
use dnsdata_go.Types.Mnemonics.{find_text}
use dnsdata_go.Types.Decimal.{format_uint, format_digits}

instance abbrev no_fold : Unicode
no_fold = record { lower = λ s. s; upper = λ s. s; same_fold = λ a b. false; trim = λ s. s }

generic_name : rr_type_name 1030 ≡ b'T' ∷ b'Y' ∷ b'P' ∷ b'E' ∷ b'1' ∷ b'0' ∷ b'3' ∷ b'0' ∷ []
unfolding rr_type_name find_text format_uint format_digits
generic_name = refl

names_read_example :
    (string_to_rr_type (rr_type_name 1030) ≡ ok 1030)
    × (string_to_rr_class (rr_class_name 1030) ≡ ok 1030)
    × ((s : Bytes)
        → ((algorithm_to_string 1030 ≡ ok s) ↔ (string_to_algorithm s ≡ ok 1030))
          × ((rcode_to_string 1030 ≡ ok s) ↔ (string_to_rcode s ≡ ok 1030))
          × ((op_code_to_string 1030 ≡ ok s) ↔ (string_to_op_code s ≡ ok 1030)))
names_read_example = names_read 1030 (omega arith)

abbrev refused : Bytes
refused = b'R' ∷ b'E' ∷ b'F' ∷ b'U' ∷ b'S' ∷ b'E' ∷ b'D' ∷ []

refused_text : rcode_to_string 5 ≡ ok refused
unfolding rcode_to_string find_text
refused_text = refl

abbrev ed448_key : DnsKey
ed448_key = record { owner = none; flags = 256; protocol = 3; algorithm = 16; key_data = 1 ∷ [] }
