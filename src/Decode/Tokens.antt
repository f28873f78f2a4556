-- ===== src/Decode/Tokens.antt =====
-- What src/decode_base.h reads back of src/di_encoder.c: the tokens of a CBOR text, as the encoder's
-- functions write them and as the calls of methods that they are to lead to.
use php_ext_cbor.Base.{ℕ, ◌+◌, ◌^◌, ◌<◌, ◌≤◌, ◌⊎◌, Bool, List, ◌++◌, leb, length, if◌then◌else◌}
use php_ext_cbor.Di.{DiType, IsU64}
use php_ext_cbor.Di.Encoder.{
  write_int, write_indef, write_bool, write_null, write_undef, write_simple, write_float16,
  write_float32, write_float64,
}
use php_ext_cbor.Decode.{Event}

-- A token: a scalar, a string with its bytes, or the start of a container.
pub data Token : Type 0 where
  uint nint : ℕ → Token
  bytes text : List ℕ → Token
  array_of map_of : ℕ → Token
  tag : ℕ → Token
  open_bytes open_text open_array open_map : Token
  boolean : Bool → Token
  null undefined : Token
  simple float16 float32 float64 : ℕ → Token

-- The token as the encoder writes it.
unfoldable pub write_token : List ℕ → Token → List ℕ
unfolding write_int write_indef write_bool write_null write_undef write_simple write_float16
    write_float32 write_float64
write_token buf (uint n) = write_int buf DiType.uint n
write_token buf (nint n) = write_int buf DiType.nint n
write_token buf (bytes s) = write_int buf DiType.bstr (length s) ++ s
write_token buf (text s) = write_int buf DiType.tstr (length s) ++ s
write_token buf (array_of n) = write_int buf DiType.array n
write_token buf (map_of n) = write_int buf DiType.map n
write_token buf (tag n) = write_int buf DiType.tag n
write_token buf open_bytes = write_indef buf DiType.bstr
write_token buf open_text = write_indef buf DiType.tstr
write_token buf open_array = write_indef buf DiType.array
write_token buf open_map = write_indef buf DiType.map
write_token buf (boolean b) = write_bool buf b
write_token buf null = write_null buf
write_token buf undefined = write_undef buf
write_token buf (simple n) = write_simple buf n
write_token buf (float16 n) = write_float16 buf n
write_token buf (float32 n) = write_float32 buf n
write_token buf (float64 n) = write_float64 buf n

-- The method that the token is for: numbers above 32 bits have one of their own.
unfoldable pub event_of : Token → Event
event_of (uint n) = if leb n 0xffff_ffff then Event.uint32 n else Event.uint64 n
event_of (nint n) = if leb n 0xffff_ffff then Event.nint32 n else Event.nint64 n
event_of (bytes s) = Event.byte_string s
event_of (text s) = Event.text_string s
event_of (array_of n) = Event.array_start n
event_of (map_of n) = Event.map_start n
event_of (tag n) = Event.tag_start n
event_of open_bytes = Event.byte_string_start
event_of open_text = Event.text_string_start
event_of open_array = Event.indef_array_start
event_of open_map = Event.indef_map_start
event_of (boolean b) = Event.boolean b
event_of null = Event.null
event_of undefined = Event.undefined
event_of (simple n) = Event.simple n
event_of (float16 n) = Event.float16 n
event_of (float32 n) = Event.float32 n
event_of (float64 n) = Event.float64 n

-- The numbers are in range: 64 bits, a string that memory can hold with its head, a 32-bit count of
-- elements, a simple value that has no token of its own, and the width of a float.
abbrev pub InRange : Token → Type 0
InRange (uint n) = IsU64 n
InRange (nint n) = IsU64 n
InRange (bytes s) = IsU64 (length s + 9)
InRange (text s) = IsU64 (length s + 9)
InRange (array_of n) = n < 2 ^ 32
InRange (map_of n) = n < 2 ^ 32
InRange (tag n) = IsU64 n
InRange (simple n) = (n < 20) ⊎ ((32 ≤ n) × (n < 256))
InRange (float16 n) = n < 2 ^ 16
InRange (float32 n) = n < 2 ^ 32
InRange (float64 n) = IsU64 n
InRange _ = 0 ≤ 0
