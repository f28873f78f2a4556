-- ===== src/Enc/Params.antt =====
-- src/encode.c, `enc_encodeparams`: a value with flags and options of its own.
use php_ext_cbor.Base.{
  ℕ, ◌+◌, ◌-◌, ◌%◌, ◌^◌, Bool, Option, none, some, ltb, if◌then◌else◌, bit_and, bit_or,
}
use php_ext_cbor.Base.Int.{ℤ, pos, negsuc}
use php_ext_cbor.Codec.{invalid_flags, clear_cde, recursion, has_flag}
use php_ext_cbor.Codec.Flag
use php_ext_cbor.Options.{Stored}
use php_ext_cbor.Options.Encoding.{EncodeArgs, override_encode_options, check_encode_params}
use php_ext_cbor.Zv.{Zval}
use php_ext_cbor.Enc.{EncCtx, Status, good, failed, ParamsOf, Place, place_in, ◌>>=◌}
use php_ext_cbor.Enc.Hash.{protect, unprotect}

-- The low 32 bits of a `zend_long`.
abbrev pub low_bits : ℤ → ℕ
low_bits (pos n) = n % 2 ^ 32
low_bits (negsuc n) = 2 ^ 32 - 1 - n % 2 ^ 32

-- `u & ~f`.
abbrev pub cleared : ℕ → ℕ → ℕ
cleared u f = u - bit_and u f

abbrev pub in_args : EncCtx → Stored EncodeArgs → EncCtx × Status
in_args ctx (none, a) = (record ctx { args = a }, good)
in_args ctx (some e, a) = (record ctx { args = a }, failed e)

abbrev set_u_flags : ℕ → EncCtx → EncCtx
set_u_flags flags ctx = record ctx { args = record ctx.args { u_flags = flags } }

unfoldable pub clear_flags : EncCtx → Option Zval → EncCtx × Status
clear_flags ctx none = (ctx, good)
clear_flags ctx (some (Zval.long flags)) =
    if has_flag (low_bits flags) Flag.cde
    then (ctx, failed clear_cde)
    else (set_u_flags (cleared ctx.args.u_flags (low_bits flags)) ctx, good)
clear_flags ctx (some v) = (ctx, failed invalid_flags)

-- The flags that the new ones exclude.
unfoldable pub mutex_flags : ℕ → ℕ
mutex_flags flags =
    (if has_flag flags Flag.byte
      then 2 ^ Flag.text
      else if has_flag flags Flag.text
      then 2 ^ Flag.byte
      else 0)
    + (if has_flag flags Flag.key_byte
        then 2 ^ Flag.key_text
        else if has_flag flags Flag.key_text
        then 2 ^ Flag.key_byte
        else 0)

unfoldable pub set_flags : EncCtx → Option Zval → EncCtx × Status
unfolding mutex_flags
set_flags ctx none = (ctx, good)
set_flags ctx (some (Zval.long flags)) =
    let f = low_bits flags in
    (set_u_flags (bit_or (cleared ctx.args.u_flags (mutex_flags f)) f) ctx, good)
set_flags ctx (some v) = (ctx, failed invalid_flags)

-- The new arguments are in force.
unfoldable pub apply_params : EncCtx → ParamsOf → EncCtx × Status
unfolding clear_flags set_flags override_encode_options check_encode_params
apply_params ctx p = clear_flags ctx p.flags_clear >>= λ ctx. set_flags ctx p.flags >>= λ ctx.
    in_args ctx (override_encode_options ctx.args p.class_options) >>= λ ctx.
    in_args ctx (check_encode_params ctx.args)

-- The old arguments are back, whatever the outcome.
abbrev pub restore : EncodeArgs → Bool → EncCtx × Status → EncCtx × Status
restore saved_args may_be_shared (ctx, s) = (
  record ctx {
    args = saved_args;
    in_enc_params = if may_be_shared then ctx.in_enc_params - 1 else ctx.in_enc_params;
  },
  s,
)

module _ (enc : EncCtx → Zval → EncCtx × Status) where
  unfoldable pub enc_encodeparams : EncCtx → Place → ℕ → ParamsOf → EncCtx × Status
  unfolding apply_params place_in
  enc_encodeparams ctx place refcount p =
      let may_be_shared = ltb 1 refcount in
      let inner =
        if may_be_shared then record ctx { in_enc_params = ctx.in_enc_params + 1 } else ctx in
      restore ctx.args may_be_shared (
        if place_in place ctx.protected
        then (inner, failed recursion)
        else (apply_params inner p >>= λ ctx.
            unprotect (some place) (enc (protect (some place) ctx) p.value)))
