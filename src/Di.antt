-- ===== src/Di.antt =====
-- src/di.h and the structure of src/di_decoder.h: the types of a CBOR data item, the additional
-- information of an initial byte, and what a read leaves in `cbor_di_decoded`.
pub mod Encoder
pub mod Decoder
pub mod RoundTrip
pub mod Heads
use php_ext_cbor.Base.{ℕ, ◌+◌, ◌*◌, ◌/◌, ◌%◌, ◌^◌, ◌<◌, ◌==◌, Bool, Option, some, none, List}

-- The codec constants DI_UINT to DI_BREAK; `reserved` is the 0 that `cbor_di_get_type` returns.
pub data DiType : Type 0 where
  uint nint bstr tstr array map tag : DiType
  false_value true_value null undef simple0 simple8 float16 float32 float64 break : DiType
  reserved : DiType

-- `di_type - DI_UINT`: the major type of the seven types that come first.
abbrev pub major_type : DiType → ℕ
major_type uint = 0
major_type nint = 1
major_type bstr = 2
major_type tstr = 3
major_type array = 4
major_type map = 5
major_type tag = 6
major_type _ = 7

abbrev pub info_int0_max : ℕ
info_int0_max = 23

abbrev pub info_int8 : ℕ
info_int8 = 24

abbrev pub info_int16 : ℕ
info_int16 = 25

abbrev pub info_int32 : ℕ
info_int32 = 26

abbrev pub info_int64 : ℕ
info_int64 = 27

abbrev pub info_indef : ℕ
info_indef = 31

abbrev pub info_max : ℕ
info_max = 31

-- DI_MAJOR_TYPE(n) is `n << 5`.
abbrev pub major_bits : ℕ → ℕ
major_bits n = n * 32

abbrev pub IsByte : ℕ → Type 0
IsByte b = b < 256

abbrev pub IsU64 : ℕ → Type 0
IsU64 v = v < 2 ^ 64

-- The union `v`: the member that was written last. `str none n` is an indefinite-length string
-- (`val` is NULL), `str (some k) n` has its bytes at `data[k]`; `list n is_indef` stands for the
-- pair of `i64` and `ext.is_indef`, which do not overlap.
pub data Payload : Type 0 where
  unset : Payload
  i32 : ℕ → Payload
  i64 : ℕ → Payload
  f16 : ℕ → Payload
  str : Option ℕ → ℕ → Payload
  list : ℕ → Bool → Payload

-- `cbor_di_decoded`.
pub record Decoded : Type 0 where
  pub read_len : ℕ
  pub req_len : ℕ
  pub v : Payload

-- DI_IS_DOUBLE: the value was read into the 64-bit member.
abbrev pub is_double : Decoded → Bool
is_double out = out.read_len == 1 + 8
