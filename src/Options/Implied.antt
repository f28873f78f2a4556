-- ===== src/Options/Implied.antt =====
-- src/options.c, `cbor_check_encode_params`: the flags that deterministic encoding implies.
use php_ext_cbor.Base.{
  ℕ, ◌≡◌, ◌∙◌, refl, ap, Bool, true, false, ◌&&◌, ◌||◌, none, some, ltb, if◌then◌else◌, arith,
}
use php_ext_cbor.Codec.{CborError, has_flag, both_string_flag, both_key_string_flag, contextual_cde}
use php_ext_cbor.Codec.Flag
use php_ext_cbor.Options.{Stored}
use php_ext_cbor.Options.Encoding.{EncodeArgs, with_flag, check_encode_params}

-- A flag that is set is on, and the others are as they were; stated for the flags that are set.
float16_on : (f : ℕ) → has_flag (with_flag Flag.float16 f) Flag.float16 ≡ true
unfolding with_flag
float16_on f = ground arith

float32_on :
    (f : ℕ)
    → (has_flag (with_flag Flag.float32 f) Flag.float32 ≡ true)
      × (has_flag (with_flag Flag.float32 f) Flag.float16 ≡ has_flag f Flag.float16)
unfolding with_flag
float32_on f = ground arith

no_dup_on :
    (f : ℕ)
    → (has_flag (with_flag Flag.map_no_dup_key f) Flag.map_no_dup_key ≡ true)
      × (has_flag (with_flag Flag.map_no_dup_key f) Flag.float32 ≡ has_flag f Flag.float32)
      × (has_flag (with_flag Flag.map_no_dup_key f) Flag.float16 ≡ has_flag f Flag.float16)
unfolding with_flag
no_dup_on f = ground arith

-- The branch that is left when nothing is refused.
passed :
    (both both_key refs : Bool) (e1 e2 e3 : CborError) (args x a : EncodeArgs)
    → ◌≡◌ {A = Stored EncodeArgs}
        (if both
          then (some e1, args)
          else if both_key
          then (some e2, args)
          else if refs
          then (some e3, args)
          else (none, x))
        (none, a)
    → (refs ≡ false) × (x ≡ a)
passed true _ _ e1 e2 e3 args x a e = absurd (cc e)
passed false true _ e1 e2 e3 args x a e = absurd (cc e)
passed false false true e1 e2 e3 args x a e = absurd (cc e)
passed false false false e1 e2 e3 args x a e = (refl, cc)

no_refs : (m n : ℕ) → ltb 0 m || ltb 0 n ≡ false → (m ≡ 0) × (n ≡ 0)
no_refs m n e = ground arith

-- With CBOR_CDE, parameters that pass make the encoder's flags contain CBOR_FLOAT16, CBOR_FLOAT32 and
-- CBOR_MAP_NO_DUP_KEY, and neither kind of reference is on.
pub check_encode_params-cde :
    (args a : EncodeArgs)
    → has_flag args.u_flags Flag.cde ≡ true
    → check_encode_params args ≡ (none, a)
    → (has_flag a.e_flags Flag.float16 ≡ true)
      × (has_flag a.e_flags Flag.float32 ≡ true)
      × (has_flag a.e_flags Flag.map_no_dup_key ≡ true)
      × (args.string_ref ≡ 0)
      × (args.shared_ref ≡ 0)
unfolding check_encode_params
check_encode_params-cde args a c e =
    let f = args.u_flags in
    let on16 = float16_on f in
    let on32 = float32_on (with_flag Flag.float16 f) in
    let on_dup = no_dup_on (with_flag Flag.float32 (with_flag Flag.float16 f)) in
    let result = record args {
      e_flags = with_flag Flag.map_no_dup_key (with_flag Flag.float32 (with_flag Flag.float16 f));
    } in
    let left =
      passed (has_flag f Flag.byte && has_flag f Flag.text)
        (has_flag f Flag.key_byte && has_flag f Flag.key_text)
        (ltb 0 args.string_ref || ltb 0 args.shared_ref) both_string_flag both_key_string_flag
        contextual_cde args result a (rw c at e) in
    let flags : with_flag Flag.map_no_dup_key (with_flag Flag.float32 (with_flag Flag.float16 f))
        ≡ a.e_flags =
      ap (λ (x : EncodeArgs). x.e_flags) left.1 in
    let off = no_refs args.string_ref args.shared_ref left.0 in
    (
      rw⁻¹ flags (on_dup.2 ∙ on32.1 ∙ on16),
      rw⁻¹ flags (on_dup.1 ∙ on32.0),
      rw⁻¹ flags on_dup.0,
      off.0,
      off.1,
    )
