-- ===== src/Enc/Shared.antt =====
-- src/encode.c: shared values, and tags.
use php_ext_cbor.Base.{
  ℕ, ◌+◌, Bool, true, false, ◌&&◌, Option, none, some, List, [], ◌∷◌, ◌++◌, ltb, leb, ◌==◌,
  if◌then◌else◌, get_elem?,
}
use php_ext_cbor.Base.Int.{ℤ, pos, negsuc}
use php_ext_cbor.Codec.{internal, syntax, tag_type, tag_syntax, tag_value, has_flag}
use php_ext_cbor.Codec.Flag
use php_ext_cbor.Codec.Tag
use php_ext_cbor.Zv.{Zval}
use php_ext_cbor.Enc.{
  EncCtx, Srns, Instance, Heap, Status, good, failed, Follow, ends, value_follows, Place,
  same_place, ◌>>=◌,
}
use php_ext_cbor.Enc.Scalars.{enc_long, enc_tag_bare}
use php_ext_cbor.Enc.Strings.{new_srns}

-- The index of a place in the table `refs`, counted from `i`.
unfoldable pub ref_index : ℕ → Place → List Place → Option ℕ
unfolding same_place
ref_index i p [] = none
ref_index i p (q ∷ qs) = if same_place q p then some i else ref_index (i + 1) p qs

unfoldable pub write_ref : EncCtx → Place → Option ℕ → EncCtx × Follow
unfolding enc_long enc_tag_bare
write_ref ctx p (some i) =
    (record ctx { buf = enc_long (enc_tag_bare ctx.buf Tag.shared_ref) (pos i) }, ends good)
write_ref ctx p none = (
  record ctx { refs = ctx.refs ++ p ∷ []; buf = enc_tag_bare ctx.buf Tag.shareable },
  value_follows,
)

unfoldable pub enc_ref_counted : EncCtx → Place → EncCtx × Follow
unfolding write_ref ref_index
enc_ref_counted ctx p = write_ref ctx p (ref_index 0 p ctx.refs)

-- What follows, if the value is to follow.
abbrev pub followed : (EncCtx → EncCtx × Status) → EncCtx × Follow → EncCtx × Status
followed more (ctx, ends s) = (ctx, s)
followed more (ctx, value_follows) = more ctx

abbrev pub instance_at : Heap → ℕ → Option Instance
instance_at heap h = elim (get_elem? heap.objects h) [
  | none ↦ none
  | some held ↦ some held.instance_of
]

abbrev pub is_shareable : Option Instance → Bool
is_shareable (some (Instance.shareable v)) = true
is_shareable _ = false

-- The value is a `Cbor\Shareable` itself.
unfoldable pub nested_shareable : Heap → Zval → Bool
nested_shareable heap (Zval.object h) = is_shareable (instance_at heap h)
nested_shareable heap v = false

-- The old namespace is back whether there was an error or not.
abbrev pub leave_ns : Option Srns → EncCtx × Status → EncCtx × Status
leave_ns orig_srns (ctx, s) = (record ctx { srns = orig_srns }, s)

-- The content of a tag 25.
unfoldable pub check_string_ref : EncCtx → Option Srns → Zval → Status
check_string_ref ctx none (Zval.long n) = failed tag_syntax
check_string_ref ctx (some srns) (Zval.long (pos n)) =
    if leb srns.next_index n then failed tag_value else good
check_string_ref ctx (some srns) (Zval.long (negsuc n)) = failed tag_value
check_string_ref ctx srns content = failed tag_type

module _ (enc : EncCtx → Zval → EncCtx × Status) where
  unfoldable pub enc_shareable : Heap → EncCtx → Place → Zval → EncCtx × Status
  unfolding enc_ref_counted nested_shareable
  enc_shareable heap ctx p value =
      if has_flag ctx.args.e_flags Flag.cde
      then (ctx, failed internal)
      else followed
          (λ ctx. if nested_shareable heap value then (ctx, failed tag_value) else enc ctx value)
          (enc_ref_counted ctx p)

  unfoldable pub enc_content : EncCtx → ℕ → Zval → EncCtx × Status
  unfolding check_string_ref
  enc_content ctx tag_id content =
      if (tag_id == Tag.string_ref_ns) && ltb 0 ctx.args.string_ref
      then leave_ns ctx.srns (enc (record ctx { srns = some new_srns }) content)
      else if (tag_id == Tag.string_ref) && ltb 0 ctx.args.string_ref
      then ((ctx, check_string_ref ctx ctx.srns content) >>= λ ctx. enc ctx content)
      else enc ctx content

  unfoldable pub enc_tag : EncCtx → ℤ → Zval → EncCtx × Status
  unfolding enc_content enc_tag_bare
  enc_tag ctx (negsuc n) content = (ctx, failed syntax)
  enc_tag ctx (pos tag_id) content =
      enc_content (record ctx { buf = enc_tag_bare ctx.buf tag_id }) tag_id content
