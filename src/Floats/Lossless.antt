-- ===== src/Floats/Lossless.antt =====
-- src/type_float_cast.h: a float of the size that is found stands for the same number.
use php_ext_cbor.Base.{ℕ, ◌+◌, ◌-◌, ◌*◌, ◌/◌, ◌%◌, ◌^◌, ◌<◌, ◌≡◌, ◌⊎◌, ◌==◌, if◌then◌else◌, arith}
use php_ext_cbor.Floats.{test_fp32_size, test_fp64_size}

-- IEEE 754: the single-precision float of a half-precision one that is zero, normal or not finite:
-- the sign, the exponent with the other bias, and the fraction with zeros behind.
unfoldable pub widen_16 : ℕ → ℕ
widen_16 h =
    let exp = h / 2 ^ 10 % 2 ^ 5 in
    h / 2 ^ 15 * 2 ^ 31
    + (if exp == 0 then 0 else if exp == 31 then 255 else exp + 112) * 2 ^ 23
    + h % 2 ^ 10 * 2 ^ 13

-- The half-precision float with the same sign, value and fraction.
unfoldable pub narrow_32 : ℕ → ℕ
narrow_32 s =
    let exp = s / 2 ^ 23 % 2 ^ 8 in
    s / 2 ^ 31 * 2 ^ 15
    + (if exp == 0 then 0 else if exp == 255 then 31 else exp - 112) * 2 ^ 10
    + s % 2 ^ 23 / 2 ^ 13

-- A single-precision float that is found to fit into two bytes is what its half-precision float, which
-- has 16 bits, stands for.
pub widen_16-narrow_32 :
    (s : ℕ)
    → s < 2 ^ 32
    → test_fp32_size s ≡ 2
    → (narrow_32 s < 2 ^ 16) × (widen_16 (narrow_32 s) ≡ s)
unfolding test_fp32_size widen_16 narrow_32
widen_16-narrow_32 s h e = ground arith

-- The same for a single-precision float and its double.
unfoldable pub widen_32 : ℕ → ℕ
widen_32 s =
    let exp = s / 2 ^ 23 % 2 ^ 8 in
    s / 2 ^ 31 * 2 ^ 63
    + (if exp == 0 then 0 else if exp == 255 then 2047 else exp + 896) * 2 ^ 52
    + s % 2 ^ 23 * 2 ^ 29

unfoldable pub narrow_64 : ℕ → ℕ
narrow_64 d =
    let exp = d / 2 ^ 52 % 2 ^ 11 in
    d / 2 ^ 63 * 2 ^ 31
    + (if exp == 0 then 0 else if exp == 2047 then 255 else exp - 896) * 2 ^ 23
    + d % 2 ^ 52 / 2 ^ 29

-- A double that is found to fit into two or four bytes is what its single-precision float, which has
-- 32 bits, stands for.
pub widen_32-narrow_64 :
    (d : ℕ)
    → d < 2 ^ 64
    → (test_fp64_size d ≡ 2) ⊎ (test_fp64_size d ≡ 4)
    → (narrow_64 d < 2 ^ 32) × (widen_32 (narrow_64 d) ≡ d)
unfolding test_fp64_size widen_32 narrow_64
widen_32-narrow_64 d h e = ground arith

-- A double that is found to fit into two bytes has a single-precision float that is found to, too.
pub test_fp32_size-narrow_64 :
    (d : ℕ) → d < 2 ^ 64 → test_fp64_size d ≡ 2 → test_fp32_size (narrow_64 d) ≡ 2
unfolding test_fp64_size test_fp32_size narrow_64
test_fp32_size-narrow_64 d h e = ground arith
