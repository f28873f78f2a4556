-- ===== src/Enc/Hash.antt =====
-- src/encode.c, `enc_hash` and `enc_cde_map`: arrays and objects of `stdClass`. The encoding of a
-- value is an argument, `enc`.
pub mod Tables
pub mod Order
use php_ext_cbor.Base.{
  ℕ, ◌+◌, ◌-◌, ◌^◌, Bool, true, false, not, ◌&&◌, ◌||◌, Option, none, some, List, [], ◌∷◌, ◌++◌,
  ltb, ◌==◌, if◌then◌else◌, length,
}
use php_ext_cbor.Base.Int.{ℤ, pos, negsuc}
use php_ext_cbor.Codec.{recursion, no_key_string_flag, has_flag}
use php_ext_cbor.Codec.Flag
use php_ext_cbor.Decimal.{long_to_str}
use php_ext_cbor.Di.{DiType}
use php_ext_cbor.Di.Encoder.{write_int}
use php_ext_cbor.Zv.{Key, index, name, Zval, Entries, end, entry}
use php_ext_cbor.Zv.Table.{num_elements}
use php_ext_cbor.Enc.{
  EncCtx, EncEngine, Status, good, failed, Place, place_in, without, Bucket, ◌>>=◌, wrote,
}
use php_ext_cbor.Enc.Scalars.{enc_long, enc_xint}
use php_ext_cbor.Enc.Keys.{convert_string_to_int}
use php_ext_cbor.Enc.Strings.{enc_string}

-- `(zend_long)index`.
abbrev pub signed : ℕ → ℤ
signed i = if ltb i (2 ^ 63) then pos i else negsuc (2 ^ 64 - 1 - i)

-- `zend_array_is_list`: the keys are 0, 1, … in order.
unfoldable pub is_list_from : ℕ → Entries → Bool
is_list_from i end = true
is_list_from i (entry (index j) v es) = (j == i) && is_list_from (i + 1) es
is_list_from i (entry (name s) v es) = false

abbrev pub key_flag_error : ℕ → Bool
key_flag_error flags = not (has_flag flags Flag.key_byte || has_flag flags Flag.key_text)

-- A key as a string.
unfoldable pub enc_key_string : EncCtx → List ℕ → EncCtx × Status
unfolding enc_string
enc_key_string ctx s =
    if key_flag_error ctx.args.e_flags
    then (ctx, failed no_key_string_flag)
    else enc_string ctx s (has_flag ctx.args.e_flags Flag.key_text)

unfoldable pub enc_name : EncCtx → List ℕ → Option (ℕ × Bool) → EncCtx × Status
unfolding enc_key_string enc_xint
enc_name ctx s none = enc_key_string ctx s
enc_name ctx s (some (value, is_negative)) = wrote ctx (enc_xint ctx.buf value is_negative)

unfoldable pub enc_key : EncCtx → Key → EncCtx × Status
unfolding enc_name enc_key_string enc_long convert_string_to_int long_to_str
enc_key ctx (name s) =
    if has_flag ctx.args.e_flags Flag.int_key
    then enc_name ctx s (convert_string_to_int s)
    else enc_key_string ctx s
enc_key ctx (index i) =
    if has_flag ctx.args.e_flags Flag.int_key
    then wrote ctx (enc_long ctx.buf (signed i))
    else enc_key_string ctx (long_to_str (signed i))

-- Z_PROTECT_RECURSION_P and Z_UNPROTECT_RECURSION_P around a function; only the contents of a
-- reference, and objects, can come up in themselves.
abbrev pub is_recursive : EncCtx → Option Place → Bool
is_recursive ctx none = false
is_recursive ctx (some p) = place_in p ctx.protected

abbrev pub protect : Option Place → EncCtx → EncCtx
protect none ctx = ctx
protect (some p) ctx = record ctx { protected = p ∷ ctx.protected }

abbrev pub unprotect : Option Place → EncCtx × Status → EncCtx × Status
unprotect none r = r
unprotect (some p) (ctx, s) = (record ctx { protected = without p ctx.protected }, s)

-- `bucket_cmp_key_cde` is not above 0: `zend_binary_strcmp` compares bytes, then lengths.
unfoldable pub key_le : List ℕ → List ℕ → Bool
key_le [] t = true
key_le (a ∷ s) [] = false
key_le (a ∷ s) (b ∷ t) = ltb a b || ((a == b) && key_le s t)

abbrev pub bucket_le : Bucket → Bucket → Bool
bucket_le (s, v) (t, w) = key_le s t

-- A key that is encoded into a buffer of its own joins the table.
unfoldable pub add_bucket :
    List ℕ → List Bucket → Zval → EncCtx × Status → (EncCtx × Status) × List Bucket
add_bucket out_buf ht val (ctx, good) =
    ((record ctx { buf = out_buf }, good), ht ++ (ctx.buf, val) ∷ [])
add_bucket out_buf ht val (ctx, s) = ((record ctx { buf = out_buf }, s), ht)

-- The loop over the entries with a table to sort.
unfoldable pub collect : (EncCtx × Status) × List Bucket → Entries → (EncCtx × Status) × List Bucket
unfolding add_bucket enc_key
collect r end = r
collect ((ctx, good), ht) (entry k v es) =
    collect (add_bucket ctx.buf ht v (enc_key (record ctx { buf = [] }) k)) es
collect ((ctx, s), ht) (entry k v es) = ((ctx, s), ht)

module _ (enc : EncCtx → Zval → EncCtx × Status) where
  unfoldable pub enc_buckets : EncCtx → List Bucket → EncCtx × Status
  enc_buckets ctx [] = (ctx, good)
  enc_buckets ctx ((key, val) ∷ ht) =
      enc (record ctx { buf = ctx.buf ++ key }) val >>= λ ctx. enc_buckets ctx ht

  unfoldable pub enc_cde_map : EncEngine → EncCtx → List Bucket → EncCtx × Status
  unfolding enc_buckets write_int
  enc_cde_map engine ctx ht =
      enc_buckets (record ctx { buf = write_int ctx.buf DiType.map (length ht) })
        (engine.hash_sort bucket_le ht)

  -- The loop over the entries without a table; a list has no keys.
  unfoldable pub enc_entries : Bool → EncCtx → Entries → EncCtx × Status
  unfolding enc_key
  enc_entries is_list ctx end = (ctx, good)
  enc_entries is_list ctx (entry k v es) =
      (if is_list then (ctx, good) else enc_key ctx k) >>= λ ctx.
      enc ctx v >>= λ ctx. enc_entries is_list ctx es

  unfoldable pub enc_sorted : EncEngine → (EncCtx × Status) × List Bucket → EncCtx × Status
  unfolding enc_cde_map
  enc_sorted engine (r, ht) = r >>= λ ctx. enc_cde_map engine ctx ht

  -- The table is sorted and written after the protection has ended.
  unfoldable pub enc_cde_hash : EncEngine → EncCtx → Option Place → Entries → EncCtx × Status
  unfolding enc_sorted collect
  enc_cde_hash engine ctx place es =
      let (r, ht) = collect ((protect place ctx, good), []) es in
      enc_sorted engine (unprotect place r, ht)

  unfoldable pub enc_plain_hash : EncCtx → Option Place → Bool → Entries → EncCtx × Status
  unfolding enc_entries write_int num_elements
  enc_plain_hash ctx place is_list es = unprotect place (
      enc_entries is_list
        (protect place (record ctx {
          buf = write_int ctx.buf (if is_list then DiType.array else DiType.map) (num_elements es);
        }))
        es)

  -- `enc_hash` for an array or a `stdClass` object.
  unfoldable pub enc_hash : EncEngine → EncCtx → Option Place → Bool → Entries → EncCtx × Status
  unfolding enc_cde_hash enc_plain_hash is_list_from num_elements
  enc_hash engine ctx place is_array es =
      let is_list = is_array && is_list_from 0 es in
      if is_recursive ctx place
      then (ctx, failed recursion)
      else if ltb 0 (num_elements es) && has_flag ctx.args.e_flags Flag.cde && not is_list
      then enc_cde_hash engine ctx place es
      else enc_plain_hash ctx place is_list es
