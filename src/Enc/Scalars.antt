-- ===== src/Enc/Scalars.antt =====
-- src/encode.c: integers, floats and the heads of tags.
use php_ext_cbor.Base.{ℕ, ◌+◌, ◌*◌, ◌%◌, ◌^◌, Bool, ◌&&◌, List, [], ◌∷◌, ◌++◌, ◌==◌, if◌then◌else◌}
use php_ext_cbor.Base.Int.{ℤ, pos, negsuc}
use php_ext_cbor.Codec.{has_flag}
use php_ext_cbor.Codec.Flag
use php_ext_cbor.Di.{DiType}
use php_ext_cbor.Di.Encoder.{
  write_int, write_float16, write_float32, write_float64, write_float_head, be16, be32,
}
use php_ext_cbor.Floats.{test_fp64_size, test_fp32_size}
use php_ext_cbor.Floats.Half.{binary32, binary64, float_to_16}
use php_ext_cbor.Enc.{EncEngine}

unfoldable pub enc_long : List ℕ → ℤ → List ℕ
unfolding write_int
enc_long buf (pos n) = write_int buf DiType.uint n
enc_long buf (negsuc n) = write_int buf DiType.nint n

unfoldable pub enc_xint : List ℕ → ℕ → Bool → List ℕ
unfolding write_int
enc_xint buf value is_negative =
    write_int buf (if is_negative then DiType.nint else DiType.uint) value

-- The loop of `enc_bin_int`; the shifted value has its low byte clear, so `|` adds.
unfoldable pub bin_value : ℕ → List ℕ → ℕ
bin_value i_value [] = i_value
bin_value i_value (c ∷ str) = bin_value (i_value * 256 % 2 ^ 64 + c) str

unfoldable pub enc_bin_int : List ℕ → List ℕ → Bool → List ℕ
unfolding bin_value enc_xint
enc_bin_int buf str is_negative = enc_xint buf (bin_value 0 str) is_negative

unfoldable pub enc_tag_bare : List ℕ → ℕ → List ℕ
unfolding write_int
enc_tag_bare buf tag_id = write_int buf DiType.tag tag_id

-- The format by the flags: with both, the size that loses nothing.
pub data FloatType : Type 0 where
  fp16 fp32 fp64 : FloatType

unfoldable pub float_type : ℕ → ℕ → FloatType
unfolding test_fp64_size
float_type flags bits =
    let size = test_fp64_size bits in
    if has_flag flags Flag.float16 && has_flag flags Flag.float32
    then (if size == 2
        then FloatType.fp16
        else if size == 4
        then FloatType.fp32
        else FloatType.fp64)
    else if has_flag flags Flag.float16
    then FloatType.fp16
    else if has_flag flags Flag.float32
    then FloatType.fp32
    else FloatType.fp64

module _ (engine : EncEngine) where
  abbrev pub write_as : List ℕ → ℕ → FloatType → List ℕ
  write_as buf bits FloatType.fp16 = write_float16 buf (float_to_16 engine.f16c binary64 bits)
  write_as buf bits FloatType.fp32 = write_float32 buf (engine.to_fp32 bits)
  write_as buf bits FloatType.fp64 = write_float64 buf bits

  unfoldable pub enc_z_double : ℕ → List ℕ → ℕ → List ℕ
  unfolding float_type float_to_16 write_float16 write_float32 write_float64
  enc_z_double flags buf bits = write_as buf bits (float_type flags bits)

  unfoldable pub enc_z_float_compact : List ℕ → ℕ → List ℕ
  unfolding test_fp32_size float_to_16 write_float16 write_float32
  enc_z_float_compact buf bits =
      if test_fp32_size bits == 2
      then write_float16 buf (float_to_16 engine.f16c binary32 bits)
      else write_float32 buf bits

  -- `Cbor\Float16` and `Cbor\Float32`: the bytes of the object behind the head.
  unfoldable pub enc_float16_object : List ℕ → ℕ → List ℕ
  unfolding write_float_head
  enc_float16_object buf bits = write_float_head buf 16 ++ be16 bits

  unfoldable pub enc_float32_object : ℕ → List ℕ → ℕ → List ℕ
  unfolding enc_z_float_compact write_float_head
  enc_float32_object flags buf bits =
      if has_flag flags Flag.cde
      then enc_z_float_compact buf bits
      else write_float_head buf 32 ++ be32 bits
