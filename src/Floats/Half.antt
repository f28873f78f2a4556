-- ===== src/Floats/Half.antt =====
-- src/type_float_cast_16.h: the conversion to a half-precision float for the two formats that src/type_float_cast.h includes the file with.
pub mod Cast
use php_ext_cbor.Base.{
  ℕ, ◌+◌, ◌-◌, ◌*◌, ◌/◌, ◌%◌, ◌^◌, bit_or, Bool, Option, none, some, ◌&&◌, not, ltb, leb, ◌==◌,
  if◌then◌else◌,
}

-- FC_EXP_BITS, FC_FRAC_BITS and FC_EXP_BIAS.
pub record Format : Type 0 where
  pub exp_bits : ℕ
  pub frac_bits : ℕ
  pub exp_bias : ℕ

abbrev pub binary32 : Format
binary32 = record { exp_bits = 8; frac_bits = 23; exp_bias = 127 }

abbrev pub binary64 : Format
binary64 = record { exp_bits = 11; frac_bits = 52; exp_bias = 1023 }

abbrev pub exponent_of : Format → ℕ → ℕ
exponent_of f bin = bin / 2 ^ f.frac_bits % 2 ^ f.exp_bits

-- The sign in its place in a half-precision float.
abbrev pub sign_of : Format → ℕ → ℕ
sign_of f bin = bin / 2 ^ (f.exp_bits + f.frac_bits) % 2 * 2 ^ 15

-- FC_FN_CAST_NAME without the instruction. The exponent `exp0` is `exp - exp_bias`; the tests and the shift are written so that
-- nothing is below 0. The rounded fraction has a bit in common with what is in front of it where the
-- rounding carries.
unfoldable pub portable_cast : Format → ℕ → ℕ
portable_cast f bin =
    let exp = exponent_of f bin in
    let frac = bin % 2 ^ f.frac_bits in
    let shift = exp + 24 - f.exp_bias in
    if ltb (exp + 24) f.exp_bias
    then sign_of f bin
    else if ltb (exp + 14) f.exp_bias
    then sign_of f bin + bit_or (2 ^ shift) ((frac / 2 ^ (f.frac_bits - shift - 1) + 1) / 2)
    else if leb exp (f.exp_bias + 15)
    then sign_of f bin
      + bit_or ((exp + 15 - f.exp_bias) * 2 ^ 10) ((frac / 2 ^ (f.frac_bits - 11) + 1) / 2)
    else sign_of f bin + 0x1f * 2 ^ 10

-- FC_FN_CAST_NAME. `f16c` is the conversion of a processor that has an instruction for it, after the
-- conversion to single precision.
unfoldable pub float_to_16_cast : Option (Format → ℕ → ℕ) → Format → ℕ → ℕ
unfolding portable_cast
float_to_16_cast none f bin = portable_cast f bin
float_to_16_cast (some convert) f bin = convert f bin

abbrev pub is_nan : Format → ℕ → Bool
is_nan f bin = (exponent_of f bin == 2 ^ f.exp_bits - 1) && not (bin % 2 ^ f.frac_bits == 0)

-- FC_FN_NAME. Of a NaN the sign and the high bits of the fraction are kept.
unfoldable pub float_to_16 : Option (Format → ℕ → ℕ) → Format → ℕ → ℕ
unfolding float_to_16_cast
float_to_16 f16c f bin =
    let bin16 = 0x7c00 + sign_of f bin + bin % 2 ^ f.frac_bits / 2 ^ (f.frac_bits - 10) in
    if is_nan f bin
    then (if bin16 == 0x7c00 then 0x7e00 else bin16)
    else float_to_16_cast f16c f bin
