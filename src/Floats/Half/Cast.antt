-- ===== src/Floats/Half/Cast.antt =====
-- src/type_float_cast_16.h against the formats of IEEE 754.
use php_ext_cbor.Base.{
  none, Option, ℕ, ◌+◌, ◌-◌, ◌*◌, ◌/◌, ◌%◌, ◌^◌, ◌<◌, ◌≤◌, ◌≡◌, refl, sym, ◌∙◌, ◌⊎◌, inl, inr,
  bit_or, true, ◌==◌, if◌then◌else◌, arith, ==_iff,
}
use php_ext_cbor.Base.Bits.{passes_under, passes_under_at}
use php_ext_cbor.Floats.{test_fp32_size, test_fp64_size}
use php_ext_cbor.Floats.Lossless.{narrow_32, narrow_64}
use php_ext_cbor.Floats.Half.{
  Format, binary32, binary64, portable_cast, float_to_16_cast, float_to_16,
}

abbrev carried : ℕ → ℕ → ℕ
carried e r = if r == 1024 then (if e % 2 == 1 then e * 1024 else (e + 1) * 1024) else e * 1024 + r

or_table :
    passes_under 31 (λ e. passes_under 1025 (λ r. bit_or (e * 2 ^ 10) r == carried e r)) ≡ true
unfolding passes_under
or_table = refl

or_carried : (e r : ℕ) → e < 31 → r < 1025 → bit_or (e * 2 ^ 10) r ≡ carried e r
or_carried e r h k = (==_iff _ _).0 (passes_under_at 1025 _ r (passes_under_at 31 _ e or_table h) k)

-- The rounding does nothing where all bits that are cut are 0.
exact_fraction :
    (exp frac e : ℕ)
    → exp + 15 - e < 31
    → frac < 2 ^ 10
    → bit_or ((exp + 15 - e) * 2 ^ 10) ((2 * frac + 1) / 2) ≡ (exp + 15 - e) * 2 ^ 10 + frac
exact_fraction exp frac e h k =
    or_carried (exp + 15 - e) ((2 * frac + 1) / 2) h (omega arith) ∙ ground arith

normal_32 :
    (exp frac : ℕ)
    → 113 ≤ exp
    → exp ≤ 142
    → frac < 2 ^ 23
    → frac % 2 ^ 13 ≡ 0
    → bit_or ((exp + 15 - 127) * 2 ^ 10) ((frac / 2 ^ 12 + 1) / 2)
      ≡ (exp - 112) * 2 ^ 10 + frac / 2 ^ 13
normal_32 exp frac low high h z =
    let twice : frac / 2 ^ 12 ≡ 2 * (frac / 2 ^ 13) = omega arith in
    rw twice (exact_fraction exp (frac / 2 ^ 13) 127 (omega arith) (omega arith) ∙ omega arith)

normal_64 :
    (exp frac : ℕ)
    → 1009 ≤ exp
    → exp ≤ 1038
    → frac < 2 ^ 52
    → frac % 2 ^ 42 ≡ 0
    → bit_or ((exp + 15 - 1023) * 2 ^ 10) ((frac / 2 ^ 41 + 1) / 2)
      ≡ (exp - 1008) * 2 ^ 10 + frac / 2 ^ 42
normal_64 exp frac low high h z =
    let twice : frac / 2 ^ 41 ≡ 2 * (frac / 2 ^ 42) = omega arith in
    rw twice (exact_fraction exp (frac / 2 ^ 42) 1023 (omega arith) (omega arith) ∙ omega arith)

-- A single-precision float of 32 bits that is found to fit into two bytes is converted, without the
-- instruction of the processor, to the
-- half-precision float with the same sign, value and fraction.
pub float_to_16-narrow_32 :
    (s : ℕ) → s < 2 ^ 32 → test_fp32_size s ≡ 2 → float_to_16 none binary32 s ≡ narrow_32 s
unfolding float_to_16 float_to_16_cast portable_cast test_fp32_size narrow_32
float_to_16-narrow_32 s h e = ground (arith, normal_32 (s / 2 ^ 23 % 2 ^ 8) (s % 2 ^ 23))

-- The doubles that are found to fit into two bytes.
two_bytes :
    (d : ℕ)
    → test_fp64_size d ≡ 2
    → (d ≡ 0)
      ⊎ ((d % 2 ^ 52 % 2 ^ 42 ≡ 0)
          × ((d / 2 ^ 52 % 2 ^ 11 ≡ 2047)
              ⊎ ((1009 ≤ d / 2 ^ 52 % 2 ^ 11) × (d / 2 ^ 52 % 2 ^ 11 ≤ 1038))))
unfolding test_fp64_size
two_bytes d e = ground (arith, e)

module _ (d : ℕ) (h : d < 2 ^ 64) (z : d % 2 ^ 52 % 2 ^ 42 ≡ 0) where
  narrow_twice :
      (d / 2 ^ 52 % 2 ^ 11 ≡ 2047) ⊎ ((1009 ≤ d / 2 ^ 52 % 2 ^ 11) × (d / 2 ^ 52 % 2 ^ 11 ≤ 1038))
      → narrow_32 (narrow_64 d)
        ≡ d / 2 ^ 63 % 2 * 2 ^ 15
          + (if d / 2 ^ 52 % 2 ^ 11 == 2047 then 31 else d / 2 ^ 52 % 2 ^ 11 - 1008) * 2 ^ 10
          + d % 2 ^ 52 / 2 ^ 42
  unfolding narrow_32 narrow_64
  narrow_twice (inl e) = ground (arith, e)
  narrow_twice (inr (low, high)) = ground (arith, low, high)

  cast_64 :
      (d / 2 ^ 52 % 2 ^ 11 ≡ 2047) ⊎ ((1009 ≤ d / 2 ^ 52 % 2 ^ 11) × (d / 2 ^ 52 % 2 ^ 11 ≤ 1038))
      → float_to_16 none binary64 d
        ≡ d / 2 ^ 63 % 2 * 2 ^ 15
          + (if d / 2 ^ 52 % 2 ^ 11 == 2047 then 31 else d / 2 ^ 52 % 2 ^ 11 - 1008) * 2 ^ 10
          + d % 2 ^ 52 / 2 ^ 42
  unfolding float_to_16 float_to_16_cast portable_cast
  cast_64 (inl e) = ground (arith, e)
  cast_64 (inr (low, high)) =
      ground (arith, low, high, normal_64 (d / 2 ^ 52 % 2 ^ 11) (d % 2 ^ 52))

-- A double of 64 bits that is found to fit into two bytes is converted, without the instruction of
-- the processor, to the same half-precision
-- float as its single-precision float would be.
pub float_to_16-narrow_64 :
    (d : ℕ)
    → d < 2 ^ 64
    → test_fp64_size d ≡ 2
    → float_to_16 none binary64 d ≡ narrow_32 (narrow_64 d)
unfolding float_to_16 float_to_16_cast portable_cast narrow_32 narrow_64
float_to_16-narrow_64 d h e = elim (two_bytes d e) [
  | inl nought ↦ rw nought refl
  | inr (z, way) ↦ cast_64 d h z way ∙ sym (narrow_twice d h z way)
]

lost_carry :
    (exp : ℕ)
    → 113 ≤ exp
    → exp ≤ 142
    → exp % 2 ≡ 1
    → (bit_or ((exp + 15 - 127) * 2 ^ 10) 1024 ≡ (exp - 112) * 2 ^ 10)
      × (bit_or ((exp + 15 - 127) * 2 ^ 10) 0 ≡ (exp - 112) * 2 ^ 10)
lost_carry exp low high odd = (
  or_carried (exp + 15 - 127) 1024 (omega arith) (omega arith) ∙ ground arith,
  or_carried (exp + 15 - 127) 0 (omega arith) (omega arith) ∙ ground arith,
)

-- A single-precision float with an odd exponent in the range of normal half-precision floats, and a
-- fraction that rounds up to the next power of two, is converted to the power of two below it without the
-- instruction of the processor.
pub float_to_16-carry :
    (exp frac : ℕ)
    → 113 ≤ exp
    → exp ≤ 142
    → exp % 2 ≡ 1
    → 0x7ff000 ≤ frac
    → frac < 2 ^ 23
    → float_to_16 none binary32 (exp * 2 ^ 23 + frac) ≡ narrow_32 (exp * 2 ^ 23)
unfolding float_to_16 float_to_16_cast portable_cast narrow_32
float_to_16-carry exp frac low high odd h k =
    let rounded : (frac / 2 ^ 12 + 1) / 2 ≡ 1024 = omega arith in
    let there : ((exp * 2 ^ 23 + frac) / 2 ^ 23 ≡ exp) × ((exp * 2 ^ 23 + frac) % 2 ^ 23 ≡ frac) =
      omega arith in
    ground (arith, lost_carry exp, rounded, there)

-- A negative NaN of single precision whose fraction has no bit among the high ten is converted to the
-- pattern of the negative infinity.
pub float_to_16-negative_nan :
    (f16c : Option (Format → ℕ → ℕ)) (frac : ℕ)
    → 0 < frac
    → frac < 2 ^ 13
    → float_to_16 f16c binary32 (0x1ff * 2 ^ 23 + frac) ≡ 0xfc00
unfolding float_to_16
float_to_16-negative_nan f16c frac low high = ground arith
