-- ===== src/Di/Encoder.antt =====
-- src/di_encoder.c: writing the head of a data item. A `smart_str` is the list of its bytes, and a
-- function that appends to it returns the longer list.
use php_ext_cbor.Base.{ℕ, ◌+◌, ◌/◌, ◌%◌, ◌^◌, Bool, List, [], ◌∷◌, ◌++◌, leb, ◌==◌, if◌then◌else◌}
use php_ext_cbor.Di.{
  DiType, major_type, major_bits, info_int0_max, info_int8, info_int16, info_int32, info_int64,
  info_indef, info_max,
}

-- The byte `(uint8_t)(val >> s)`.
abbrev pub octet : ℕ → ℕ → ℕ
octet val s = val / 2 ^ s % 256

-- The bytes of a number from the highest down, as the writers store them.
abbrev pub be16 : ℕ → List ℕ
be16 val = octet val 8 ∷ octet val 0 ∷ []

abbrev pub be32 : ℕ → List ℕ
be32 val = octet val 24 ∷ octet val 16 ∷ be16 val

abbrev pub be64 : ℕ → List ℕ
be64 val = octet val 56 ∷ octet val 48 ∷ octet val 40 ∷ octet val 32 ∷ be32 val

-- `ini_byte | info`: the major type has the low five bits clear, so `|` adds.
unfoldable pub int_head : ℕ → ℕ → List ℕ
int_head ini_byte val =
    if leb val info_int0_max
    then (ini_byte + val % 256) ∷ []
    else if leb val 0xff
    then (ini_byte + info_int8) ∷ octet val 0 ∷ []
    else if leb val 0xffff
    then (ini_byte + info_int16) ∷ be16 val
    else if leb val 0xffff_ffff
    then (ini_byte + info_int32) ∷ be32 val
    else (ini_byte + info_int64) ∷ be64 val

unfoldable pub write_int : List ℕ → DiType → ℕ → List ℕ
unfolding int_head
write_int buf di_type val = buf ++ int_head (major_bits (major_type di_type)) val

unfoldable pub write_indef : List ℕ → DiType → List ℕ
write_indef buf di_type = buf ++ (major_bits (major_type di_type) + info_indef) ∷ []

unfoldable pub write_bool : List ℕ → Bool → List ℕ
write_bool buf val = buf ++ (major_bits 7 + (if val then 21 else 20)) ∷ []

unfoldable pub write_null : List ℕ → List ℕ
write_null buf = buf ++ (major_bits 7 + 22) ∷ []

unfoldable pub write_undef : List ℕ → List ℕ
write_undef buf = buf ++ (major_bits 7 + 23) ∷ []

-- `val` is a `uint8_t`; a value of DI_INFO_MAX or less goes into the initial byte.
unfoldable pub write_simple : List ℕ → ℕ → List ℕ
write_simple buf val =
    if leb val info_max
    then buf ++ (major_bits 7 + val) ∷ []
    else buf ++ (major_bits 7 + 24) ∷ octet val 0 ∷ []

-- The head alone: the caller stores `bits / 8` bytes at the pointer returned.
unfoldable pub write_float_head : List ℕ → ℕ → List ℕ
write_float_head buf bits =
    buf ++ (major_bits 7 + (if bits == 64 then 27 else if bits == 32 then 26 else 25)) ∷ []

-- A float is its IEEE 754 bit pattern.
unfoldable pub write_float64 : List ℕ → ℕ → List ℕ
write_float64 buf val = buf ++ (major_bits 7 + 27) ∷ be64 val

unfoldable pub write_float32 : List ℕ → ℕ → List ℕ
write_float32 buf val = buf ++ (major_bits 7 + 26) ∷ be32 val

unfoldable pub write_float16 : List ℕ → ℕ → List ℕ
write_float16 buf val = buf ++ (major_bits 7 + 25) ∷ be16 val

unfoldable pub write_break : List ℕ → List ℕ
write_break buf = buf ++ (major_bits 7 + info_indef) ∷ []
