-- ===== src/Types/RrType.antt =====
-- types/rrtype.go and types/rfc3597.go: the mnemonics of the record types.
use dnsdata_go.Common.{ℕ, Bool, List, [], ◌∷◌, Bytes, Result, ok, err}
use dnsdata_go.Text.{Unicode}
use dnsdata_go.Types.Mnemonics.{
  TypesError, unknown_rr_type, find_text, find_code, is_one_of, text_or, code_or,
}
use dnsdata_go.Types.{
  type_invalid, type_a, type_ns, type_cname, type_soa, type_ptr, type_hinfo, type_mx, type_txt,
  type_rp, type_aaaa, type_loc, type_srv, type_naptr, type_cert, type_dname, type_opt, type_ds,
  type_sshfp, type_rrsig, type_nsec, type_dnskey, type_nsec3, type_nsec3param, type_tlsa,
  type_smimea, type_cds, type_cdnskey, type_openpgpkey, type_csync, type_svcb, type_https,
  type_eui48, type_eui64, type_uri, type_caa,
}
use dnsdata_go.Types.Decimal.{generic_type_prefix, format_uint, parse_generic_mnemonic}
use dnsdata_go.Common.{◌++◌, some, none}

-- The switch of `RRTypeToString`.
abbrev pub rr_type_texts : List (ℕ × Bytes)
rr_type_texts =
    (type_invalid, b'I' ∷ b'N' ∷ b'V' ∷ b'A' ∷ b'L' ∷ b'I' ∷ b'D' ∷ [])
    ∷ (type_a, b'A' ∷ [])
    ∷ (type_ns, b'N' ∷ b'S' ∷ [])
    ∷ (type_cname, b'C' ∷ b'N' ∷ b'A' ∷ b'M' ∷ b'E' ∷ [])
    ∷ (type_soa, b'S' ∷ b'O' ∷ b'A' ∷ [])
    ∷ (type_ptr, b'P' ∷ b'T' ∷ b'R' ∷ [])
    ∷ (type_hinfo, b'H' ∷ b'I' ∷ b'N' ∷ b'F' ∷ b'O' ∷ [])
    ∷ (type_mx, b'M' ∷ b'X' ∷ [])
    ∷ (type_txt, b'T' ∷ b'X' ∷ b'T' ∷ [])
    ∷ (type_rp, b'R' ∷ b'P' ∷ [])
    ∷ (type_aaaa, b'A' ∷ b'A' ∷ b'A' ∷ b'A' ∷ [])
    ∷ (type_loc, b'L' ∷ b'O' ∷ b'C' ∷ [])
    ∷ (type_srv, b'S' ∷ b'R' ∷ b'V' ∷ [])
    ∷ (type_naptr, b'N' ∷ b'A' ∷ b'P' ∷ b'T' ∷ b'R' ∷ [])
    ∷ (type_cert, b'C' ∷ b'E' ∷ b'R' ∷ b'T' ∷ [])
    ∷ (type_dname, b'D' ∷ b'N' ∷ b'A' ∷ b'M' ∷ b'E' ∷ [])
    ∷ (type_opt, b'O' ∷ b'P' ∷ b'T' ∷ [])
    ∷ (type_ds, b'D' ∷ b'S' ∷ [])
    ∷ (type_sshfp, b'S' ∷ b'S' ∷ b'H' ∷ b'F' ∷ b'P' ∷ [])
    ∷ (type_rrsig, b'R' ∷ b'R' ∷ b'S' ∷ b'I' ∷ b'G' ∷ [])
    ∷ (type_nsec, b'N' ∷ b'S' ∷ b'E' ∷ b'C' ∷ [])
    ∷ (type_dnskey, b'D' ∷ b'N' ∷ b'S' ∷ b'K' ∷ b'E' ∷ b'Y' ∷ [])
    ∷ (type_nsec3, b'N' ∷ b'S' ∷ b'E' ∷ b'C' ∷ b'3' ∷ [])
    ∷ (type_nsec3param, b'N' ∷ b'S' ∷ b'E' ∷ b'C' ∷ b'3' ∷ b'P' ∷ b'A' ∷ b'R' ∷ b'A' ∷ b'M' ∷ [])
    ∷ (type_tlsa, b'T' ∷ b'L' ∷ b'S' ∷ b'A' ∷ [])
    ∷ (type_smimea, b'S' ∷ b'M' ∷ b'I' ∷ b'M' ∷ b'E' ∷ b'A' ∷ [])
    ∷ (type_cds, b'C' ∷ b'D' ∷ b'S' ∷ [])
    ∷ (type_cdnskey, b'C' ∷ b'D' ∷ b'N' ∷ b'S' ∷ b'K' ∷ b'E' ∷ b'Y' ∷ [])
    ∷ (type_openpgpkey, b'O' ∷ b'P' ∷ b'E' ∷ b'N' ∷ b'P' ∷ b'G' ∷ b'P' ∷ b'K' ∷ b'E' ∷ b'Y' ∷ [])
    ∷ (type_csync, b'C' ∷ b'S' ∷ b'Y' ∷ b'N' ∷ b'C' ∷ [])
    ∷ (type_svcb, b'S' ∷ b'V' ∷ b'C' ∷ b'B' ∷ [])
    ∷ (type_https, b'H' ∷ b'T' ∷ b'T' ∷ b'P' ∷ b'S' ∷ [])
    ∷ (type_eui48, b'E' ∷ b'U' ∷ b'I' ∷ b'4' ∷ b'8' ∷ [])
    ∷ (type_eui64, b'E' ∷ b'U' ∷ b'I' ∷ b'6' ∷ b'4' ∷ [])
    ∷ (type_uri, b'U' ∷ b'R' ∷ b'I' ∷ [])
    ∷ (type_caa, b'C' ∷ b'A' ∷ b'A' ∷ [])
    ∷ []

-- The switch of `StringToRRType`.
abbrev pub rr_type_codes : List (Bytes × ℕ)
rr_type_codes =
    (b'I' ∷ b'N' ∷ b'V' ∷ b'A' ∷ b'L' ∷ b'I' ∷ b'D' ∷ [], type_invalid)
    ∷ (b'A' ∷ [], type_a)
    ∷ (b'N' ∷ b'S' ∷ [], type_ns)
    ∷ (b'C' ∷ b'N' ∷ b'A' ∷ b'M' ∷ b'E' ∷ [], type_cname)
    ∷ (b'S' ∷ b'O' ∷ b'A' ∷ [], type_soa)
    ∷ (b'P' ∷ b'T' ∷ b'R' ∷ [], type_ptr)
    ∷ (b'H' ∷ b'I' ∷ b'N' ∷ b'F' ∷ b'O' ∷ [], type_hinfo)
    ∷ (b'M' ∷ b'X' ∷ [], type_mx)
    ∷ (b'T' ∷ b'X' ∷ b'T' ∷ [], type_txt)
    ∷ (b'R' ∷ b'P' ∷ [], type_rp)
    ∷ (b'A' ∷ b'A' ∷ b'A' ∷ b'A' ∷ [], type_aaaa)
    ∷ (b'L' ∷ b'O' ∷ b'C' ∷ [], type_loc)
    ∷ (b'S' ∷ b'R' ∷ b'V' ∷ [], type_srv)
    ∷ (b'N' ∷ b'A' ∷ b'P' ∷ b'T' ∷ b'R' ∷ [], type_naptr)
    ∷ (b'C' ∷ b'E' ∷ b'R' ∷ b'T' ∷ [], type_cert)
    ∷ (b'D' ∷ b'N' ∷ b'A' ∷ b'M' ∷ b'E' ∷ [], type_dname)
    ∷ (b'O' ∷ b'P' ∷ b'T' ∷ [], type_opt)
    ∷ (b'D' ∷ b'S' ∷ [], type_ds)
    ∷ (b'S' ∷ b'S' ∷ b'H' ∷ b'F' ∷ b'P' ∷ [], type_sshfp)
    ∷ (b'R' ∷ b'R' ∷ b'S' ∷ b'I' ∷ b'G' ∷ [], type_rrsig)
    ∷ (b'N' ∷ b'S' ∷ b'E' ∷ b'C' ∷ [], type_nsec)
    ∷ (b'D' ∷ b'N' ∷ b'S' ∷ b'K' ∷ b'E' ∷ b'Y' ∷ [], type_dnskey)
    ∷ (b'N' ∷ b'S' ∷ b'E' ∷ b'C' ∷ b'3' ∷ [], type_nsec3)
    ∷ (b'N' ∷ b'S' ∷ b'E' ∷ b'C' ∷ b'3' ∷ b'P' ∷ b'A' ∷ b'R' ∷ b'A' ∷ b'M' ∷ [], type_nsec3param)
    ∷ (b'T' ∷ b'L' ∷ b'S' ∷ b'A' ∷ [], type_tlsa)
    ∷ (b'S' ∷ b'M' ∷ b'I' ∷ b'M' ∷ b'E' ∷ b'A' ∷ [], type_smimea)
    ∷ (b'C' ∷ b'D' ∷ b'S' ∷ [], type_cds)
    ∷ (b'C' ∷ b'D' ∷ b'N' ∷ b'S' ∷ b'K' ∷ b'E' ∷ b'Y' ∷ [], type_cdnskey)
    ∷ (b'O' ∷ b'P' ∷ b'E' ∷ b'N' ∷ b'P' ∷ b'G' ∷ b'P' ∷ b'K' ∷ b'E' ∷ b'Y' ∷ [], type_openpgpkey)
    ∷ (b'C' ∷ b'S' ∷ b'Y' ∷ b'N' ∷ b'C' ∷ [], type_csync)
    ∷ (b'S' ∷ b'V' ∷ b'C' ∷ b'B' ∷ [], type_svcb)
    ∷ (b'H' ∷ b'T' ∷ b'T' ∷ b'P' ∷ b'S' ∷ [], type_https)
    ∷ (b'E' ∷ b'U' ∷ b'I' ∷ b'4' ∷ b'8' ∷ [], type_eui48)
    ∷ (b'E' ∷ b'U' ∷ b'I' ∷ b'6' ∷ b'4' ∷ [], type_eui64)
    ∷ (b'U' ∷ b'R' ∷ b'I' ∷ [], type_uri)
    ∷ (b'C' ∷ b'A' ∷ b'A' ∷ [], type_caa)
    ∷ []

-- `RRTypeToString`
unfoldable pub rr_type_to_string : ℕ → Result TypesError Bytes
rr_type_to_string code = text_or unknown_rr_type (find_text rr_type_texts code)

-- `RRTypeName`
unfoldable pub rr_type_name : ℕ → Bytes
unfolding rr_type_to_string
rr_type_name code = elim (rr_type_to_string code) [
  | ok s ↦ s
  | err e ↦ generic_type_prefix ++ format_uint code
]

-- `QTypeValidForRequest`
unfoldable pub qtype_valid_for_request : ℕ → Bool
qtype_valid_for_request code = is_one_of code (
    type_a ∷ type_ns ∷ type_cname ∷ type_soa ∷ type_ptr ∷ type_hinfo ∷ type_mx ∷ type_txt ∷ type_rp
    ∷ type_aaaa ∷ type_loc ∷ type_srv ∷ type_naptr ∷ type_cert ∷ type_dname ∷ type_ds ∷ type_sshfp
    ∷ type_rrsig ∷ type_nsec ∷ type_dnskey ∷ type_nsec3 ∷ type_nsec3param ∷ type_tlsa ∷ type_smimea
    ∷ type_cds ∷ type_cdnskey ∷ type_openpgpkey ∷ type_csync ∷ type_svcb ∷ type_https ∷ type_eui48
    ∷ type_eui64 ∷ type_uri ∷ [])

module _ ⦃u : Unicode⦄ where
  -- `StringToRRType`
  unfoldable pub string_to_rr_type : Bytes → Result TypesError ℕ
  unfolding parse_generic_mnemonic
  string_to_rr_type s = elim (parse_generic_mnemonic s generic_type_prefix) [
    | some t ↦ ok t
    | none ↦ code_or unknown_rr_type (find_code rr_type_codes s)
  ]
