-- ===== src/Floats.antt =====
-- src/type_float_cast.h: the size that a float can be written in without loss. A float is its bit
-- pattern.
pub mod Lossless
pub mod Half
use php_ext_cbor.Base.{ℕ, ◌+◌, ◌-◌, ◌*◌, ◌/◌, ◌%◌, ◌^◌, Bool, ◌&&◌, ◌||◌, leb, ◌==◌, if◌then◌else◌}

-- The exponent fits into that of the smaller format, or is the one of infinities and NaN.
abbrev pub exp_fits : ℕ → ℕ → ℕ → ℕ → Bool
exp_fits exp fill low high = (exp == fill) || (leb low exp && leb exp high)

-- `test_fp32_size`: 2 or 4 bytes.
unfoldable pub test_fp32_size : ℕ → ℕ
test_fp32_size bits =
    let exp = bits / 2 ^ 23 % 2 ^ 8 in
    let frac = bits % 2 ^ 23 in
    if bits == 0
    then 2
    else if exp_fits exp 0xff (127 - 14) (127 + 15) && (frac % 2 ^ 13 == 0)
    then 2
    else 4

-- `test_fp64_size`: 2, 4 or 8 bytes.
unfoldable pub test_fp64_size : ℕ → ℕ
test_fp64_size bits =
    let exp = bits / 2 ^ 52 % 2 ^ 11 in
    let frac = bits % 2 ^ 52 in
    if bits == 0
    then 2
    else if exp_fits exp 0x7ff (1023 - 126) (1023 + 127) && (frac % 2 ^ 29 == 0)
    then if exp_fits exp 0x7ff (1023 - 14) (1023 + 15) && (frac % 2 ^ 42 == 0) then 2 else 4
    else 8
