-- ===== src/Zv/Append.antt =====
-- src/decode_zv.h: a finished value goes to the innermost open container. A container that it
-- completes is closed and goes to the one around it, so `append_from` recurs on the stack.
use php_ext_cbor.Base.{
  ℕ, ◌+◌, ◌-◌, ◌%◌, ◌^◌, Bool, true, false, ◌&&◌, Option, none, some, List, [], ◌∷◌, ltb, leb, ◌==◌,
  if◌then◌else◌, get_elem?, set,
}
use php_ext_cbor.Base.Int.{ℤ, pos, negsuc}
use php_ext_cbor.Codec.{
  CborError, internal, int_range, unsupported_size, unsupported_key_type, int_key, null_key,
  bool_key, float_key, array_key, object_key, undef_key, tag_key, reserved_prop_name, duplicate_key,
  indef_string_chunk_type, has_flag,
}
use php_ext_cbor.Codec.Flag
use php_ext_cbor.Decimal.{int_to_str, long_to_str}
use php_ext_cbor.Decode.{set_error}
use php_ext_cbor.Zv.{
  Engine, Key, index, name, Entries, end, Zval, null, undef, boolean, long, double, string, array,
  object, reference, undefined, xuint, xnint, Object, float16, float32, shareable, std_class, Thi,
  SiValue, value, str, map, tag_id, tag_handled, tag_shareable, ZvState, ZvCtx, ZvStackItem,
}
use php_ext_cbor.Zv.Table.{
  new_object, set_object, object_at, update, exists_key, lookup, push, num_elements,
}
use php_ext_cbor.Zv.Tags.{is_xxint, set_u}
use php_ext_cbor.Zv.Share.{call_exit}

-- What an append returns: whether it succeeded, and the context.
abbrev pub Appended : Type 0
Appended = Bool × ZvCtx

-- RETURN_CB_ERROR_B.
abbrev pub fail : CborError → ZvCtx → Appended
fail error ctx = (false, set_error error ctx)

-- An error, or else the rest of the append.
unfoldable pub fail_or : Option CborError → ZvCtx → Appended → Appended
fail_or (some e) ctx more = fail e ctx
fail_or none ctx more = more

abbrev pub with_v : SiValue → ZvStackItem → ZvStackItem
with_v v item = record item { ext = record (item.ext) { v = v } }

-- `stack_pop_item`: `zv_si_pop` does nothing.
abbrev pub pop_top : List ZvStackItem → ZvCtx → ZvCtx
pop_top rest ctx = record ctx { stack = rest; stack_depth = ctx.stack_depth - 1 }

-- The item on the top is written.
abbrev pub put_top : ZvStackItem → List ZvStackItem → ZvCtx → ZvCtx
put_top item rest ctx = record ctx { stack = item ∷ rest }

-- `if (item->base.count && --item->base.count == 0)`: the container is complete and goes up, as the
-- value `whole`.
unfoldable pub count_down :
    (Zval → ZvCtx → Appended) → ZvStackItem → List ZvStackItem → Zval → ZvCtx → Appended
count_down up item rest whole ctx =
    if item.count == 0
    then (true, put_top item rest ctx)
    else if item.count == 1
    then up whole (pop_top rest ctx)
    else (true, put_top (record item { count = item.count - 1 }) rest ctx)

-- `zv_append_to_array`, with the array of the item.
unfoldable pub append_to_array :
    (Zval → ZvCtx → Appended) → ZvStackItem → List ZvStackItem → Entries → Zval → ZvCtx → Appended
unfolding count_down
append_to_array up item rest es v ctx =
    if is_xxint v
    then fail int_range ctx
    else if (item.count == 0) && leb ctx.args.max_size (num_elements es)
    then fail unsupported_size ctx
    else count_down up (with_v (value (array (push v es))) item) rest (array (push v es)) ctx

abbrev pub class_key_error : Option Object → CborError
class_key_error (some (float16 n)) = float_key
class_key_error (some (float32 n)) = float_key
class_key_error (some (Object.tag id v)) = tag_key
class_key_error (some (shareable v)) = tag_key
class_key_error _ = object_key

-- The switch on the type of a key: the error, if it cannot be one.
unfoldable pub key_error : ZvCtx → Zval → Option CborError
key_error ctx (long n) = if has_flag ctx.args.flags Flag.int_key then none else some int_key
key_error ctx (xuint n) = if has_flag ctx.args.flags Flag.int_key then none else some int_key
key_error ctx (xnint n) = if has_flag ctx.args.flags Flag.int_key then none else some int_key
key_error ctx (string s) = none
key_error ctx null = some null_key
key_error ctx (boolean b) = some bool_key
key_error ctx (double n) = some float_key
key_error ctx (array es) = some array_key
key_error ctx undefined = some undef_key
key_error ctx (object h) = some (class_key_error (object_at h ctx.u))
key_error ctx undef = some unsupported_key_type
key_error ctx (reference h) = some unsupported_key_type

-- A key for the map: the entries of one of indefinite length are counted here.
unfoldable pub append_key : ZvStackItem → List ZvStackItem → Zval → ℕ → Zval → ZvCtx → Appended
unfolding key_error fail_or
append_key item rest dest added v ctx =
    let added' = if item.count == 0 then (added + 1) % 2 ^ 32 else added in
    if (item.count == 0) && ltb ctx.args.max_size added'
    then fail unsupported_size ctx
    else fail_or (key_error ctx v) ctx (true, put_top (with_v (map dest v added') item) rest ctx)

-- An integer key as a table's index.
abbrev pub long_index : ℤ → ℕ
long_index (pos n) = n
long_index (negsuc n) = 2 ^ 64 - 1 - n

-- The text of a key as the name of a property.
abbrev pub key_text : Zval → List ℕ
key_text (string s) = s
key_text (long n) = long_to_str n
key_text (xuint n) = int_to_str n false
key_text (xnint n) = int_to_str n true
key_text _ = []

abbrev pub is_reserved : List ℕ → Bool
is_reserved [] = false
is_reserved (c ∷ cs) = c == 0

abbrev pub entries_of : Option Object → Entries
entries_of (some (std_class es)) = es
entries_of _ = end

-- ZVAL_DEREF: a reference is what it refers to, as where it is an argument of a call.
unfoldable pub deref : Zval → ZvState → Zval
deref (reference h) s = elim (get_elem? s.cells h) [ none ↦ reference h | some v ↦ v ]
deref v s = v

-- `zend_std_write_property`: a property that is there is assigned to, through a reference that it is;
-- one that is not there is added as it is.
unfoldable pub write_property : ℕ → Key → Zval → Entries → ZvState → ZvState
unfolding deref
write_property h k v es s = elim (lookup k es) [
  | none ↦ set_object h (std_class (update k v es)) s
  | some (reference r) ↦ record s { cells = set s.cells r (deref v s) }
  | some _ ↦ set_object h (std_class (update k (deref v s) es)) s
]

module _ (engine : Engine) where
  -- The key of an array: a string that is a decimal integer is that integer.
  unfoldable pub array_key_of : Zval → Key
  array_key_of (long n) = index (long_index n)
  array_key_of v = elim (engine.numeric_key (key_text v)) [
    | none ↦ name (key_text v)
    | some i ↦ index i
  ]

  abbrev pub refuses_dup : ZvCtx → Key → Entries → Bool
  refuses_dup ctx k es = has_flag ctx.args.flags Flag.map_no_dup_key && exists_key k es

  -- The entry is written to the container: an error, or the container and the state.
  unfoldable pub write_entry : Zval → Zval → Zval → ZvCtx → Option CborError × Zval × ZvState
  unfolding array_key_of write_property
  write_entry (object h) key v ctx =
      let k = key_text key in
      let es = entries_of (object_at h ctx.u) in
      if is_reserved k
      then (some reserved_prop_name, object h, ctx.u)
      else if refuses_dup ctx (name k) es
      then (some duplicate_key, object h, ctx.u)
      else (none, object h, write_property h (name k) v es ctx.u)
  write_entry (array es) key v ctx =
      let k = array_key_of key in
      if refuses_dup ctx k es
      then (some duplicate_key, array es, ctx.u)
      else (none, array (update k v es), ctx.u)
  write_entry dest key v ctx = (some internal, dest, ctx.u)

  -- A value for the key that waits.
  unfoldable pub append_entry :
      (Zval → ZvCtx → Appended)
      → ZvStackItem
      → List ZvStackItem
      → Zval
      → Zval
      → ℕ
      → Zval
      → ZvCtx
      → Appended
  unfolding write_entry count_down fail_or
  append_entry up item rest dest key added v ctx =
      let (error, dest', s) = write_entry dest key v ctx in
      let more = count_down up (with_v (map dest' undef added) item) rest dest' (set_u s ctx) in
      if is_xxint v then fail int_range ctx else fail_or error ctx more

  -- `zv_append_to_map`.
  unfoldable pub append_to_map :
      (Zval → ZvCtx → Appended)
      → ZvStackItem
      → List ZvStackItem
      → Zval
      → Zval
      → ℕ
      → Zval
      → ZvCtx
      → Appended
  unfolding append_key append_entry
  append_to_map up item rest dest key added v ctx = elim key [
    | undef ↦ append_key item rest dest added v ctx
    | k ↦ append_entry up item rest dest k added v ctx
  ]

  -- `zv_append_to_tag`: the value becomes the content of a `Cbor\Tag`; the call of the constructor
  -- passes what a reference holds.
  unfoldable pub append_to_tag :
      (Zval → ZvCtx → Appended) → List ZvStackItem → ℕ → Zval → ZvCtx → Appended
  unfolding deref
  append_to_tag up rest id v ctx =
      let (container, s) = new_object (Object.tag id (deref v ctx.u)) ctx.u in
      if is_xxint v then fail int_range ctx else up container (pop_top rest (set_u s ctx))

  -- `!ctx->cb_error && zv_append(ctx, value)`.
  unfoldable pub unless_error : Option CborError → ZvCtx → Appended → Appended
  unless_error (some e) ctx more = (false, ctx)
  unless_error none ctx more = more

  -- `zv_append_to_tag_handled`: the exit handler may put another value in the place of `v`.
  unfoldable pub append_to_tag_handled :
      (Zval → ZvCtx → Appended) → List ZvStackItem → Thi → SiValue → Zval → ZvCtx → Appended
  unfolding unless_error
  append_to_tag_handled up rest thi state v ctx =
      let (v', ctx') = call_exit thi v state (pop_top rest ctx) in
      unless_error ctx'.cb_error ctx' (up v' ctx')

  -- The switch on the type of the item, by the member of the union that goes with the type.
  unfoldable pub append_to_item :
      SiValue → (Zval → ZvCtx → Appended) → ZvStackItem → List ZvStackItem → Zval → ZvCtx → Appended
  unfolding append_to_array append_to_map append_to_tag append_to_tag_handled
  append_to_item (value (array es)) up item rest v ctx = append_to_array up item rest es v ctx
  append_to_item (map dest key added) up item rest v ctx =
      append_to_map up item rest dest key added v ctx
  append_to_item (tag_id id) up item rest v ctx = append_to_tag up rest id v ctx
  append_to_item (tag_handled id thi) up item rest v ctx =
      append_to_tag_handled up rest thi (tag_handled id thi) v ctx
  append_to_item (tag_shareable id thi w i) up item rest v ctx =
      append_to_tag_handled up rest thi (tag_shareable id thi w i) v ctx
  append_to_item (str s) up item rest v ctx = fail indef_string_chunk_type ctx
  append_to_item _ up item rest v ctx = fail internal ctx

  -- `zv_append`, with the stack as an argument of its own.
  unfoldable pub append_from : List ZvStackItem → Zval → ZvCtx → Appended
  unfolding append_to_item
  append_from [] v ctx =
      if is_xxint v then fail int_range ctx else (true, set_u (record (ctx.u) { root = v }) ctx)
  append_from (item ∷ rest) v ctx = append_to_item item.ext.v (append_from rest) item rest v ctx

  unfoldable pub zv_append : Zval → ZvCtx → Appended
  unfolding append_from
  zv_append v ctx = append_from ctx.stack v ctx
