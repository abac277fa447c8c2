-- ===== src/Lib.antt =====
-- dnsdata-go: a model of the library's protocol code and the theorems that make it correct.
--
-- The package wire codes names and messages: names without compression (wire/name.go), names with
-- compression pointers (wire/name_decompress.go), messages (wire/message.go) and queries
-- (wire/query.go). The package zone orders names (zone/canonical.go), and dnssec decides with that
-- order what a record denies (dnssec/nsec.go, dnssec/nsec3.go); dnssec/signer links the names of a
-- zone into a chain (dnssec/signer/nsec.go).
--
-- Common      shared names, tests, lists, results, octet strings and comparisons
-- Text        the functions of Go's package strings; on text that is not ASCII they are the
--             parameter Unicode, since they turn on Unicode's tables
-- Types       type codes (types/rrtype.go), and the mnemonics of types, classes, algorithms and
--             response and operation codes: RrType, RrClass, Algorithm, RCode, OpCode, with
--             Decimal for types/rfc3597.go
-- Wire        Name (wire/name.go), Decompress (wire/name_decompress.go), Builder (wire/builder.go),
--             Message (wire/message.go), Query (wire/query.go), Edns (wire/edns.go), TypeBitmap
--             (wire/typebitmap.go; one round of the decoder takes an octet or more, so the length of
--             the bitmap is enough)
-- Zone        Canonical (zone/canonical.go and dnssec/canon.go), Store (the records of zone/zone.go)
-- Dnssec      Nsec (dnssec/nsec.go, dnssec/nsec3.go), Chain (dnssec/signer/nsec.go; View is newZoneView
--             and BuildNSEC, Records is RecordsCanonical of zone/canonical.go, which they read),
--             Hash (ComputeNSEC3Hash of dnssec/nsec3.go), Crypto (keys and digests of
--             dnssec/dnskey.go, ds.go and crypto.go) and Zone (dnssec/zone.go, sigcheck.go): Digest
--             is CreateDigestTarget, Check the checks of signatures; KeyModeZSK calls the check in
--             KeyModeKSK, so Check takes the choice of the keys as a function
-- Verifier    Verdict (verifier/verdict.go), Names (the helpers on names of verifier/leaf_negative.go,
--             alias.go and chain.go), Denial (the proofs of verifier/leaf_negative.go, negative.go and
--             wildcard.go over a view of the zone's records), Walk (Validate of verifier/chain.go; the
--             rounds left of its loop are max_alias_hops + 1, as in the code), Steps
--             (verifier/sigcheck.go and detectWildcard of verifier/wildcard.go), Codes
--             (verifier/reason.go), and Chain, the rest of verifier/chain.go with alias.go, answer.go
--             and cache.go: Loading (loadRecords), Keys (the DS records and anchors that keys match),
--             Descent, Root, Leaf, Alias and Hop (validateOneHop and Validate). Chain/Trust says what
--             the chain of trust is and that each verdict rests on it
-- Resolver    Stream (resolver/internal/stream), Failover (the loop over servers that the clients
--             share), Auth, Dot and Doh (the client.go of resolver/auth, dot and doh), and Memory
--             (resolver/memory: index.go and nsec3.go in Memory and Memory/Index, answer.go in
--             Memory/Replies, memory.go in Memory/Authority). Memory/Denies joins it with the chain of
--             the signer
-- Tests       runs, and each theorem at a concrete input
--
-- A []byte and a string is the list of its octets, a word of w bits a number with its bound as a
-- hypothesis where one matters. A value with an error is Result: the error is the sentinel that
-- errors.Is finds, and the formatted text is left out. A read msg[i] is 0 out of range; the code
-- makes each one behind a check of the length.
-- The loop of ParseDomainName is Decompress.walk: its first number is the hops that are left of
-- maxPointerHops, its second the rounds up to the next pointer, for which the length of the message
-- is enough.
--
-- A walk of verifier/chain.go is a function of the Result that it writes to, with the cache in it; the
-- resolver, the context and the clock are arguments, which answer each call by its number. A function
-- behind a call that may fail is a definition of its own (ds_loaded is descendInto behind the DS query).
-- A zone of the walk is the list of its records, and the code's pointer to its parent the records that
-- the parent has then: the walk adds nothing to a zone once it has left it. Of a reason the model has
-- the names that its text mentions.
--
-- Not modelled: sockets, key files and the command line (input and output), the signature
-- schemes (the standard library); and, left for their size, the codecs of record types and the text
-- of RDATA (zone/rr.go, zone/svcb.go, zone/loc.go, wire/rdata.go and the like), master files
-- (zone/strict.go), signing (dnssec/signer/sign.go), and the options, events and JSON of the verifier.
pub mod Common
pub mod Text
pub mod Types
pub mod Wire
pub mod Zone
pub mod Dnssec
pub mod Verifier
pub mod Resolver
mod Tests
