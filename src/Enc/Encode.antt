-- ===== src/Enc/Encode.antt =====
-- src/encode.c, `enc_zval` and `cbor_encode`.
use php_ext_cbor.Base.{
  ℕ, zero, suc, ◌+◌, ◌-◌, Bool, true, false, not, ◌&&◌, ◌||◌, Option, none, some, List, [], ltb,
  ◌==◌, if◌then◌else◌, get_elem?,
}
use php_ext_cbor.Codec.{CborError, depth, no_string_flag, unsupported_type, has_flag}
use php_ext_cbor.Codec.Flag
use php_ext_cbor.Codec.Opt
use php_ext_cbor.Codec.Tag
use php_ext_cbor.Di.Encoder.{write_null, write_bool, write_undef}
use php_ext_cbor.Options.Encoding.{EncodeArgs}
use php_ext_cbor.Zv.{Zval, Entries}
use php_ext_cbor.Enc.{
  EncCtx, EncEngine, Instance, Held, Heap, Status, good, failed, no_fuel, Place, wrote,
}
use php_ext_cbor.Enc.Scalars.{
  enc_long, enc_z_double, enc_float16_object, enc_float32_object, enc_tag_bare,
}
use php_ext_cbor.Enc.Strings.{enc_string, new_srns}
use php_ext_cbor.Enc.Hash.{enc_hash}
use php_ext_cbor.Enc.Shared.{followed, enc_ref_counted, enc_shareable, enc_tag}
use php_ext_cbor.Enc.Traverse.{enc_datetime, enc_uri, enc_bignum, enc_serializable, enc_traversable}
use php_ext_cbor.Enc.Params.{enc_encodeparams}
use php_ext_cbor.Enc.DecimalObject.{enc_decimal}

abbrev pub unsupported : EncCtx → EncCtx × Status
unsupported ctx = (ctx, failed unsupported_type)

-- A string of PHP is written as the flags say.
unfoldable pub enc_php_string : EncCtx → List ℕ → EncCtx × Status
unfolding enc_string
enc_php_string ctx s =
    if has_flag ctx.args.e_flags Flag.byte || has_flag ctx.args.e_flags Flag.text
    then enc_string ctx s (has_flag ctx.args.e_flags Flag.text)
    else (ctx, failed no_string_flag)

abbrev pub is_object_value : Zval → Bool
is_object_value Zval.undefined = true
is_object_value (Zval.object h) = true
is_object_value v = false

module _ (engine : EncEngine) (heap : Heap) (enc : EncCtx → Zval → EncCtx × Status) where
  -- An object of `stdClass` is shared where it may come up again.
  unfoldable pub enc_std_class : EncCtx → Place → ℕ → Bool → Entries → EncCtx × Status
  unfolding enc_hash enc_ref_counted
  enc_std_class ctx p refcount is_ref es =
      let write = λ (ctx : EncCtx). enc_hash enc engine ctx (some p) false es in
      if ltb 0 ctx.args.shared_ref && (ltb 1 refcount || is_ref || ltb 0 ctx.in_enc_params)
      then followed write (enc_ref_counted ctx p)
      else write ctx

  -- The case IS_OBJECT of `enc_zval`, by the class.
  unfoldable pub enc_instance : EncCtx → Place → ℕ → Bool → Instance → EncCtx × Status
  unfolding enc_string enc_float16_object enc_float32_object enc_tag enc_shareable enc_std_class
      enc_encodeparams enc_serializable enc_traversable enc_datetime enc_bignum enc_decimal enc_uri
  enc_instance ctx p refcount is_ref (Instance.byte s) = enc_string ctx s false
  enc_instance ctx p refcount is_ref (Instance.text s) = enc_string ctx s true
  enc_instance ctx p refcount is_ref (Instance.float16 n) =
      wrote ctx (enc_float16_object engine ctx.buf n)
  enc_instance ctx p refcount is_ref (Instance.float32 n) =
      wrote ctx (enc_float32_object engine ctx.args.e_flags ctx.buf n)
  enc_instance ctx p refcount is_ref (Instance.tag n content) = enc_tag enc ctx n content
  enc_instance ctx p refcount is_ref (Instance.shareable v) = enc_shareable enc heap ctx p v
  enc_instance ctx p refcount is_ref (Instance.std_class es) =
      enc_std_class ctx p refcount is_ref es
  enc_instance ctx p refcount is_ref (Instance.encode_params ps) =
      enc_encodeparams enc ctx p refcount ps
  enc_instance ctx p refcount is_ref (Instance.serializable call) = enc_serializable enc ctx p call
  enc_instance ctx p refcount is_ref (Instance.traversable countable it) =
      enc_traversable enc engine ctx p countable it
  enc_instance ctx p refcount is_ref (Instance.date call) =
      if ctx.args.datetime then enc_datetime ctx call else unsupported ctx
  enc_instance ctx p refcount is_ref (Instance.gmp n) =
      if ctx.args.bignum then enc_bignum engine ctx n else unsupported ctx
  enc_instance ctx p refcount is_ref (Instance.decimal calls) =
      if ctx.args.decimal then enc_decimal engine ctx calls else unsupported ctx
  enc_instance ctx p refcount is_ref (Instance.uri call) =
      if ctx.args.uri then enc_uri ctx call else unsupported ctx
  enc_instance ctx p refcount is_ref Instance.unknown = unsupported ctx

  abbrev pub enc_held : EncCtx → ℕ → Bool → Option Held → EncCtx × Status
  enc_held ctx h is_ref none = unsupported ctx
  enc_held ctx h is_ref (some held) =
      enc_instance ctx (Place.object h) held.refcount is_ref held.instance_of

  -- The switch of `enc_zval` on a value that is no reference; `place` is the reference that an array
  -- is the contents of.
  unfoldable pub enc_direct : Option Place → Bool → EncCtx → Zval → EncCtx × Status
  unfolding enc_long enc_z_double enc_php_string enc_hash enc_instance write_null write_bool
      write_undef
  enc_direct place is_ref ctx Zval.null = wrote ctx (write_null ctx.buf)
  enc_direct place is_ref ctx (Zval.boolean b) = wrote ctx (write_bool ctx.buf b)
  enc_direct place is_ref ctx (Zval.long n) = wrote ctx (enc_long ctx.buf n)
  enc_direct place is_ref ctx (Zval.double n) =
      wrote ctx (enc_z_double engine ctx.args.e_flags ctx.buf n)
  enc_direct place is_ref ctx (Zval.string s) = enc_php_string ctx s
  enc_direct place is_ref ctx (Zval.array es) = enc_hash enc engine ctx place true es
  enc_direct place is_ref ctx Zval.undefined = wrote ctx (write_undef ctx.buf)
  enc_direct place is_ref ctx (Zval.object h) = enc_held ctx h is_ref (get_elem? heap.objects h)
  enc_direct place is_ref ctx (Zval.reference h) = unsupported ctx
  enc_direct place is_ref ctx Zval.undef = unsupported ctx
  enc_direct place is_ref ctx (Zval.xuint n) = unsupported ctx
  enc_direct place is_ref ctx (Zval.xnint n) = unsupported ctx

  -- The case IS_REFERENCE, with `goto RETRY`. A reference does not hold a reference.
  unfoldable pub enc_reference : EncCtx → Place → Option Zval → EncCtx × Status
  unfolding enc_direct enc_ref_counted
  enc_reference ctx p none = unsupported ctx
  enc_reference ctx p (some v) =
      if (ctx.args.shared_ref == Opt.unsafe_ref) && not (is_object_value v)
      then followed (λ (ctx : EncCtx). enc_direct (some p) true ctx v) (enc_ref_counted ctx p)
      else enc_direct (some p) true ctx v

  unfoldable pub enc_any : EncCtx → Zval → EncCtx × Status
  unfolding enc_direct enc_reference
  enc_any ctx (Zval.reference h) = enc_reference ctx (Place.cell h) (get_elem? heap.cells h)
  enc_any ctx v = enc_direct none false ctx v

-- `ctx->cur_depth--` behind the label ENCODED.
abbrev pub leave : EncCtx × Status → EncCtx × Status
leave (ctx, s) = (record ctx { cur_depth = ctx.cur_depth - 1 }, s)

-- The context before the value, with what stands in front of it.
unfoldable pub encode_start : EncodeArgs → EncCtx
unfolding enc_tag_bare
encode_start args =
    let buf =
      if has_flag args.e_flags Flag.self_describe then enc_tag_bare [] Tag.self_describe else [] in
    let ctx : EncCtx = record {
      args = args;
      cur_depth = 0;
      in_enc_params = 0;
      buf = buf;
      srns = none;
      refs = [];
      protected = [];
    } in
    if args.string_ref == Opt.opt_true
    then record ctx { buf = enc_tag_bare buf Tag.string_ref_ns; srns = some new_srns }
    else ctx

-- The text, or the error.
pub data Encoded : Type 0 where
  text_of : List ℕ → Encoded
  error : CborError → Encoded
  out_of_fuel : Encoded

abbrev pub result_of : EncCtx × Status → Encoded
result_of (ctx, good) = text_of ctx.buf
result_of (ctx, failed e) = error e
result_of (ctx, no_fuel) = out_of_fuel

module _ (engine : EncEngine) (heap : Heap) where
  -- The fuel is the number of calls of `enc_zval` that may be open.
  unfoldable pub enc_zval : ℕ → EncCtx → Zval → EncCtx × Status
  unfolding enc_any
  enc_zval zero ctx v = (ctx, no_fuel)
  enc_zval (suc fuel) ctx v =
      let ctx' = record ctx { cur_depth = ctx.cur_depth + 1 } in
      if ltb ctx.args.max_depth ctx.cur_depth
      then (ctx', failed depth)
      else leave (enc_any engine heap (enc_zval fuel) ctx' v)

  -- `cbor_encode`. No more than `max_depth + 1` calls get past the test of the depth.
  unfoldable pub encode : EncodeArgs → Zval → Encoded
  unfolding encode_start enc_zval
  encode args value = result_of (enc_zval (args.max_depth + 2) (encode_start args) value)
