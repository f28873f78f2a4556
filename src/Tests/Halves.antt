-- ===== src/Tests/Halves.antt =====
-- The theorems on src/type_float_cast_16.h at concrete arguments.
use php_ext_cbor.Base.{none, ◌+◌, ◌*◌, ◌^◌, ◌≡◌, refl, arith}
use php_ext_cbor.Floats.{test_fp32_size, test_fp64_size}
use php_ext_cbor.Floats.Lossless.{narrow_32, narrow_64}
use php_ext_cbor.Floats.Half.{binary32, binary64, float_to_16}
use php_ext_cbor.Floats.Half.Cast.{
  float_to_16-narrow_32, float_to_16-narrow_64, float_to_16-carry, float_to_16-negative_nan,
}

-- 1.5 in both formats.
float_to_16-narrow_32_example : float_to_16 none binary32 0x3fc00000 ≡ narrow_32 0x3fc00000
unfolding test_fp32_size
float_to_16-narrow_32_example = float_to_16-narrow_32 0x3fc00000 (omega arith) refl

float_to_16-narrow_64_example :
    float_to_16 none binary64 0x3ff8000000000000 ≡ narrow_32 (narrow_64 0x3ff8000000000000)
unfolding test_fp64_size
float_to_16-narrow_64_example = float_to_16-narrow_64 0x3ff8000000000000 (omega arith) refl

-- The float next to 2 below it, and 1.
float_to_16-carry_example :
    float_to_16 none binary32 (127 * 2 ^ 23 + 0x7fffff) ≡ narrow_32 (127 * 2 ^ 23)
float_to_16-carry_example =
    float_to_16-carry 127 0x7fffff (omega arith) (omega arith) refl (omega arith) (omega arith)

float_to_16-negative_nan_example : float_to_16 none binary32 (0x1ff * 2 ^ 23 + 1) ≡ 0xfc00
float_to_16-negative_nan_example = float_to_16-negative_nan none 1 (omega arith) (omega arith)
