-- ===== src/Zv/Tags.antt =====
-- src/decode_zv.h: the handlers of the tags 256, 25, 28 and 29, which are called when such a tag is
-- entered, when a string or a child item comes up inside it, and when its value is complete.
use php_ext_cbor.Base.{
  ℕ, Bool, true, false, Option, none, some, List, [], ◌∷◌, ◌++◌, if◌then◌else◌, length, get_elem?,
  set,
}
use php_ext_cbor.Base.Int.{pos, negsuc}
use php_ext_cbor.Codec.{internal, str_ref_not_int, str_ref_range, str_ref_no_ns, is_len_string_ref}
use php_ext_cbor.Decode.{set_error, is_string}
use php_ext_cbor.Zv.{
  Zval, long, string, object, xuint, xnint, undefined, Object, byte, text, Thi, ZvItem, ZvState,
  ZvCtx, ZvStackItem,
}
use php_ext_cbor.Zv.Table.{new_object, object_at}

-- XZ_ISXXINT.
abbrev pub is_xxint : Zval → Bool
is_xxint (xuint n) = true
is_xxint (xnint n) = true
is_xxint _ = false

-- `Z_TYPE_P(value) == IS_OBJECT`.
abbrev pub is_object : Zval → Bool
is_object (object h) = true
is_object undefined = true
is_object _ = false

abbrev pub set_u : ZvState → ZvCtx → ZvCtx
set_u s ctx = record ctx { u = s }

unfoldable pub same_thi : Thi → Thi → Bool
same_thi Thi.none Thi.none = true
same_thi Thi.str_ref_ns Thi.str_ref_ns = true
same_thi Thi.str_ref Thi.str_ref = true
same_thi Thi.shareable Thi.shareable = true
same_thi Thi.shared_ref Thi.shared_ref = true
same_thi _ _ = false

-- `register_handler_vec_thi_child`: false if neither place is free.
unfoldable pub register_child : Thi → ZvItem → Bool × ZvItem
unfolding same_thi
register_child thi item = elim item.thi_child0 [
  | Thi.none ↦ (true, record item { thi_child0 = thi })
  | _ ↦ if same_thi item.thi_child0 thi then (true, item) else elim item.thi_child1 [
    | Thi.none ↦ (true, record item { thi_child1 = thi })
    | _ ↦ (same_thi item.thi_child1 thi, item)
  ]
]

-- SI_SET_CHILD_HANDLER.
unfoldable pub set_child_handler : Thi → ZvCtx → ZvItem → ZvCtx × ZvItem
unfolding register_child
set_child_handler thi ctx item =
    let (registered, item') = register_child thi item in
    (if registered then ctx else set_error internal ctx, item')

-- The top table of `srns`, and that table changed.
abbrev pub top_table : List (List Zval) → List Zval
top_table [] = []
top_table (t ∷ ts) = t

abbrev pub add_string : Zval → List (List Zval) → List (List Zval)
add_string v [] = []
add_string v (t ∷ ts) = (t ++ v ∷ []) ∷ ts

-- The length of a string or of the content of a string object.
abbrev pub text_length : Option Object → Option ℕ
text_length (some (byte s)) = some (length s)
text_length (some (text s)) = some (length s)
text_length _ = none

abbrev pub string_length : ZvState → Zval → Option ℕ
string_length s (string t) = some (length t)
string_length s (object h) = text_length (object_at h s)
string_length s _ = none

-- `tag_handler_str_ref_ns_data`: a string that is long enough gets the next index.
unfoldable pub str_ref_ns_data : Zval → ZvCtx → ZvCtx
str_ref_ns_data v ctx = elim (string_length ctx.u v) [
  | none ↦ set_error internal ctx
  | some n ↦
      if is_len_string_ref n (length (top_table ctx.u.srns))
      then set_u (record ctx.u { srns = add_string v ctx.u.srns }) ctx
      else ctx
]

-- `tag_handler_str_ref_ns_child`: the handlers go on to the child, but not to a string's chunks.
unfoldable pub str_ref_ns_child : ZvCtx → ZvStackItem → ZvCtx × ZvStackItem
unfolding set_child_handler
str_ref_ns_child ctx item =
    let (ctx', ext) = set_child_handler Thi.str_ref_ns ctx item.ext in
    if is_string item.si_type
    then (ctx, item)
    else (ctx', record item { ext = record ext { thi_data = Thi.str_ref_ns } })

unfoldable pub str_ref_ns_enter : ZvCtx → ZvItem → Bool × ZvCtx × ZvItem
unfolding set_child_handler
str_ref_ns_enter ctx item =
    let (ctx', item') =
      set_child_handler Thi.str_ref_ns ctx (record item { thi_data = Thi.str_ref_ns }) in
    (true, set_u (record ctx'.u { srns = [] ∷ ctx'.u.srns }) ctx', item')

abbrev pub drop_top : List (List Zval) → List (List Zval)
drop_top [] = []
drop_top (t ∷ ts) = ts

unfoldable pub str_ref_ns_exit : Zval → ZvCtx → Zval × ZvCtx
str_ref_ns_exit v ctx = (v, set_u (record ctx.u { srns = drop_top ctx.u.srns }) ctx)

-- A string object is cloned. (The code spares the clone where nobody else holds the object.)
unfoldable pub copy_string : Zval → ZvCtx → Zval × ZvCtx
copy_string (object h) ctx = elim (object_at h ctx.u) [
  | none ↦ (object h, ctx)
  | some o ↦ let (v, s) = new_object o ctx.u in (v, set_u s ctx)
]
copy_string v ctx = (v, ctx)

-- The string with an index, if the table has it.
unfoldable pub str_ref_exit : Zval → ZvCtx → Zval × ZvCtx
unfolding copy_string
str_ref_exit (long (pos i)) ctx = elim (get_elem? (top_table ctx.u.srns) i) [
  | none ↦ (long (pos i), set_error str_ref_range ctx)
  | some s ↦ copy_string s ctx
]
str_ref_exit (long (negsuc i)) ctx = (long (negsuc i), set_error str_ref_range ctx)
str_ref_exit v ctx = (v, set_error str_ref_not_int ctx)

unfoldable pub str_ref_enter : ZvCtx → ZvItem → Bool × ZvCtx × ZvItem
str_ref_enter ctx item = elim ctx.u.srns [
  | [] ↦ (false, set_error str_ref_no_ns ctx, item)
  | t ∷ ts ↦ (true, ctx, item)
]

-- `zend_hash_index_update` of `refs` at an index that is there.
abbrev pub set_ref : ℕ → Zval → ZvState → ZvState
set_ref i v s = record s { refs = set s.refs i v }
