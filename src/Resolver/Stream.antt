-- ===== src/Resolver/Stream.antt =====
-- resolver/internal/stream/stream.go: messages behind a length of two octets on a stream.
pub mod RoundTrip
use dnsdata_go.Common.{
  ℕ, List, [], ◌∷◌, ◌++◌, Option, none, some, ltb, if◌then◌else◌, length, take, drop, Bytes, Result,
  ok, err, ◌>>=◌,
}
use dnsdata_go.Wire.Builder.{be16, uint16_at}

-- The step that failed.
pub data StreamError : Type 0 where
  query_too_long write_failed short_length short_body : StreamError

-- What comes back on a connection for the octets written, until it closes; or no write is possible.
abbrev pub Peer : Type 0
Peer = Bytes → Option Bytes

-- `maxMessageLength`
abbrev pub max_message_length : ℕ
max_message_length = 65535

-- A query behind its length prefix.
unfoldable pub frame : Bytes → Bytes
frame query = be16 (length query) ++ query

-- `io.ReadFull` into n octets, with what is left on the stream.
unfoldable pub read_full : StreamError → ℕ → Bytes → Result StreamError (Bytes × Bytes)
read_full e n stream = if ltb (length stream) n then err e else ok (take n stream, drop n stream)

-- The message, without what is left on the stream.
unfoldable pub message_of : Result StreamError (Bytes × Bytes) → Result StreamError Bytes
message_of (ok (resp, left)) = ok resp
message_of (err e) = err e

-- The read of the body, behind that of the length.
unfoldable pub read_body : Bytes × Bytes → Result StreamError Bytes
unfolding read_full message_of
read_body (hdr, rest) = message_of (read_full short_body (uint16_at hdr 0) rest)

-- The part of `Exchange` that reads.
unfoldable pub read_message : Bytes → Result StreamError Bytes
unfolding read_body
read_message stream = read_full short_length 2 stream >>= read_body

-- `Exchange`
unfoldable pub exchange : Peer → Bytes → Result StreamError Bytes
unfolding frame read_message
exchange peer query =
    if ltb max_message_length (length query)
    then err query_too_long
    else elim (peer (frame query)) [ none ↦ err write_failed | some stream ↦ read_message stream ]
