-- ===== src/Types.antt =====
-- The package types: the type codes of types/rrtype.go.
pub mod Mnemonics
pub mod Decimal
pub mod RrType
pub mod RrClass
pub mod Algorithm
pub mod RCode
pub mod OpCode
pub mod RoundTrip
use dnsdata_go.Common.{ℕ}

abbrev pub type_invalid : ℕ
type_invalid = 0

abbrev pub type_a : ℕ
type_a = 1

abbrev pub type_ns : ℕ
type_ns = 2

abbrev pub type_cname : ℕ
type_cname = 5

abbrev pub type_soa : ℕ
type_soa = 6

abbrev pub type_ptr : ℕ
type_ptr = 12

abbrev pub type_hinfo : ℕ
type_hinfo = 13

abbrev pub type_mx : ℕ
type_mx = 15

abbrev pub type_txt : ℕ
type_txt = 16

abbrev pub type_rp : ℕ
type_rp = 17

abbrev pub type_aaaa : ℕ
type_aaaa = 28

abbrev pub type_loc : ℕ
type_loc = 29

abbrev pub type_srv : ℕ
type_srv = 33

abbrev pub type_naptr : ℕ
type_naptr = 35

abbrev pub type_cert : ℕ
type_cert = 37

abbrev pub type_dname : ℕ
type_dname = 39

abbrev pub type_opt : ℕ
type_opt = 41

abbrev pub type_ds : ℕ
type_ds = 43

abbrev pub type_sshfp : ℕ
type_sshfp = 44

abbrev pub type_rrsig : ℕ
type_rrsig = 46

abbrev pub type_nsec : ℕ
type_nsec = 47

abbrev pub type_dnskey : ℕ
type_dnskey = 48

abbrev pub type_nsec3 : ℕ
type_nsec3 = 50

abbrev pub type_nsec3param : ℕ
type_nsec3param = 51

abbrev pub type_tlsa : ℕ
type_tlsa = 52

abbrev pub type_smimea : ℕ
type_smimea = 53

abbrev pub type_cds : ℕ
type_cds = 59

abbrev pub type_cdnskey : ℕ
type_cdnskey = 60

abbrev pub type_openpgpkey : ℕ
type_openpgpkey = 61

abbrev pub type_csync : ℕ
type_csync = 62

abbrev pub type_svcb : ℕ
type_svcb = 64

abbrev pub type_https : ℕ
type_https = 65

abbrev pub type_eui48 : ℕ
type_eui48 = 108

abbrev pub type_eui64 : ℕ
type_eui64 = 109

abbrev pub type_uri : ℕ
type_uri = 256

abbrev pub type_caa : ℕ
type_caa = 257
