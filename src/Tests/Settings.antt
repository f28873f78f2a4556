-- ===== src/Tests/Settings.antt =====
-- The theorems on src/options.c and src/type_float_cast.h at concrete arguments.
use php_ext_cbor.Base.{◌+◌, ◌^◌, ◌<◌, ◌≡◌, refl, inl, true, none, some, arith}
use php_ext_cbor.Base.Int.{pos}
use php_ext_cbor.Codec.{has_flag}
use php_ext_cbor.Codec.Flag
use php_ext_cbor.Zv.{long}
use php_ext_cbor.Floats.{test_fp32_size, test_fp64_size}
use php_ext_cbor.Floats.Lossless.{
  widen_16, narrow_32, widen_16-narrow_32, widen_32, narrow_64, widen_32-narrow_64,
  test_fp32_size-narrow_64,
}
use php_ext_cbor.Options.{
  OptionName, Options, init_decode_options, set_decode_options, uint32_option,
}
use php_ext_cbor.Options.Ranges.{InLimits, set_decode_options-InLimits, uint32_option-wraps}
use php_ext_cbor.Options.Encoding.{EncodeArgs, check_encode_params}
use php_ext_cbor.Options.Implied.{check_encode_params-cde}

-- The depth is given, and no other option.
abbrev depth_only : Options
depth_only OptionName.max_depth = some (long (pos 5))
depth_only _ = none

set_decode_options-InLimits_example :
    InLimits (2 ^ 30) (record init_decode_options { max_depth = 5 })
unfolding set_decode_options
set_decode_options-InLimits_example =
    set_decode_options-InLimits (2 ^ 30) depth_only init_decode_options
      (record init_decode_options { max_depth = 5 })
      (record {
        depth_bound = omega arith;
        size_bound = omega arith;
        offset_bound = omega arith;
        shared_bound = omega arith;
        formatting = record {
          indent_bound = omega arith;
          byte_space_bound = omega arith;
          byte_wrap_bound = omega arith;
        };
      })
      refl

uint32_option-wraps_example :
    uint32_option 64 0 10000 (some (long (pos (7 + 2 ^ 32))))
    ≡ uint32_option 64 0 10000 (some (long (pos 7)))
uint32_option-wraps_example = uint32_option-wraps 64 0 10000 7

-- CBOR_CDE and CBOR_BYTE.
abbrev deterministic : EncodeArgs
deterministic = record {
  e_flags = 0;
  u_flags = 0x2001;
  max_depth = 64;
  string_ref = 0;
  shared_ref = 0;
  datetime = true;
  bignum = true;
  decimal = true;
  uri = true;
}

check_encode_params-cde_example :
    (has_flag 0x2381 Flag.float16 ≡ true)
    × (has_flag 0x2381 Flag.float32 ≡ true)
    × (has_flag 0x2381 Flag.map_no_dup_key ≡ true)
    × (deterministic.string_ref ≡ 0)
    × (deterministic.shared_ref ≡ 0)
unfolding check_encode_params
check_encode_params-cde_example =
    check_encode_params-cde deterministic (record deterministic { e_flags = 0x2381 }) refl refl

-- The pattern of 1.0 in the three formats: 0x3c00, 0x3f800000 and 0x3ff0000000000000.
widen_16-narrow_32_example :
    (narrow_32 0x3f800000 < 2 ^ 16) × (widen_16 (narrow_32 0x3f800000) ≡ 0x3f800000)
unfolding test_fp32_size
widen_16-narrow_32_example = widen_16-narrow_32 0x3f800000 (omega arith) refl

widen_32-narrow_64_example :
    (narrow_64 0x3ff0000000000000 < 2 ^ 32)
    × (widen_32 (narrow_64 0x3ff0000000000000) ≡ 0x3ff0000000000000)
unfolding test_fp64_size
widen_32-narrow_64_example = widen_32-narrow_64 0x3ff0000000000000 (omega arith) (inl refl)

test_fp32_size-narrow_64_example : test_fp32_size (narrow_64 0x3ff0000000000000) ≡ 2
unfolding test_fp64_size
test_fp32_size-narrow_64_example = test_fp32_size-narrow_64 0x3ff0000000000000 (omega arith) refl
