-- ===== src/Zv/Proc.antt =====
-- src/decode_zv.h: the METHOD functions of the decoder to PHP values, one for each kind of item.
use php_ext_cbor.Base.{
  ℕ, ◌+◌, ◌-◌, ◌*◌, ◌%◌, ◌^◌, Bool, true, false, ◌&&◌, ◌||◌, not, Option, none, some, List, [], ◌∷◌,
  ◌++◌, ltb, ◌==◌, if◌then◌else◌, get_elem?,
}
use php_ext_cbor.Base.Int.{pos, negsuc}
use php_ext_cbor.Codec.{
  CborError, int_range, unsupported_size, truncated_data, utf8, simple_type, byte_key, text_key,
  inconsistent_string_type, break_unexpected, has_flag,
}
use php_ext_cbor.Codec.Flag
use php_ext_cbor.Codec.Tag
use php_ext_cbor.Utf8.{is_utf8}
use php_ext_cbor.Decode.{SiType, Event, Methods, set_error, stack_push_item, is_string}
use php_ext_cbor.Zv.{
  Engine, end, Zval, null, undef, boolean, long, double, string, array, reference, undefined, xuint,
  xnint, byte, text, float16, float32, std_class, Thi, SiValue, unset, value, str, map, tag_id,
  tag_handled, ZvItem, ZvState, ZvCtx, ZvStackItem,
}
use php_ext_cbor.Zv.Table.{new_object}
use php_ext_cbor.Zv.Tags.{set_u, str_ref_ns_data}
use php_ext_cbor.Zv.Share.{call_enter, zv_si_push}
use php_ext_cbor.Zv.Append.{zv_append}

-- `stack_new_item` and `stack_push_item`.
unfoldable pub push_item : SiType → ℕ → SiValue → ZvCtx → ZvCtx
unfolding stack_push_item zv_si_push
push_item si_type count v ctx =
    stack_push_item zv_si_push
      (record {
        si_type = si_type;
        count = count;
        ext = record { thi_data = Thi.none; thi_child0 = Thi.none; thi_child1 = Thi.none; v = v };
      })
      ctx

-- The item that `zv_stack_push_xstring` and `zv_do_xstring` look at.
abbrev pub top : ZvCtx → Option ZvStackItem
top ctx = elim ctx.stack [ [] ↦ none | item ∷ rest ↦ some item ]

-- The type of a string of indefinite length against the type of a chunk.
abbrev pub same_type : SiType → Bool → Bool
same_type SiType.text is_text = is_text
same_type SiType.byte is_text = not is_text
same_type _ is_text = false

-- The value in a reference.
abbrev pub unwrap : List Zval → Zval → Zval
unwrap cells (reference h) = elim (get_elem? cells h) [ none ↦ undef | some v ↦ v ]
unwrap cells v = v

-- A map that waits for a key.
abbrev pub wants_key : Option ZvStackItem → Bool
wants_key none = false
wants_key (some item) = elim item.ext.v [
  | map dest key added ↦ elim key [ undef ↦ true | _ ↦ false ]
  | _ ↦ false
]

abbrev pub data_handler : Option ZvStackItem → Thi
data_handler none = Thi.none
data_handler (some item) = item.ext.thi_data

-- The call of `h_data`; only the string reference namespace has one.
abbrev pub call_data : Thi → Zval → ZvCtx → ZvCtx
call_data Thi.str_ref_ns v ctx = str_ref_ns_data v ctx
call_data _ v ctx = ctx

-- The string as a value, by the flags: a PHP string, or an object of its own class.
unfoldable pub string_value : List ℕ → Bool → Bool → ZvCtx → Zval × ZvState
string_value s is_text is_key ctx =
    if is_key || has_flag ctx.args.flags (if is_text then Flag.text else Flag.byte)
    then (string s, ctx.u)
    else new_object (if is_text then text s else byte s) ctx.u

-- ZEND_LONG_MAX.
abbrev pub long_max : ℕ
long_max = 2 ^ 63 - 1

-- A map's container, and the state with it.
unfoldable pub new_map : ZvCtx → Zval × ZvState
new_map ctx =
    if has_flag ctx.args.flags Flag.map_as_array
    then (array end, ctx.u)
    else new_object (std_class end) ctx.u

-- `zv_do_tag_enter`: the handler of a tag, if the options turn it on.
unfoldable pub tag_handler : ℕ → ZvCtx → Thi
tag_handler id ctx =
    if (id == Tag.string_ref_ns) && ctx.args.string_ref
    then Thi.str_ref_ns
    else if (id == Tag.string_ref) && ctx.args.string_ref
    then Thi.str_ref
    else if (id == Tag.shareable) && ltb 0 ctx.args.shared_ref
    then Thi.shareable
    else if (id == Tag.shared_ref) && ltb 0 ctx.args.shared_ref
    then Thi.shared_ref
    else Thi.none

-- The item of a handled tag: what its enter handler made of it, with the handler.
abbrev pub handled_value : ℕ → Thi → SiValue → SiValue
handled_value id thi unset = tag_handled id thi
handled_value id thi v = v

unfoldable pub push_handled : ℕ → Thi → ZvCtx → ZvCtx
unfolding stack_push_item zv_si_push call_enter
push_handled id thi ctx =
    let (entered, ctx', item) =
      call_enter thi ctx
        (record { thi_data = Thi.none; thi_child0 = Thi.none; thi_child1 = Thi.none; v = unset }) in
    if entered
    then stack_push_item zv_si_push
        (record {
          si_type = SiType.tag_handled;
          count = 1;
          ext = record item { v = handled_value id thi item.v };
        })
        ctx'
    else ctx'

module _ (engine : Engine) where
  abbrev pub append : Zval → ZvCtx → ZvCtx
  append v ctx = (zv_append engine v ctx).1

  -- `zv_append_string_item`.
  unfoldable pub append_string : List ℕ → Bool → Bool → ZvCtx → ZvCtx
  unfolding string_value
  append_string s is_text is_indef ctx =
      let item = top ctx in
      let is_key = wants_key item in
      let (v, u) = string_value s is_text is_key ctx in
      let ctx' = if is_indef then set_u u ctx else call_data (data_handler item) v (set_u u ctx) in
      if is_key && not (has_flag ctx.args.flags (if is_text then Flag.key_text else Flag.key_byte))
      then set_error (if is_text then text_key else byte_key) ctx
      else append v ctx'

  -- A chunk of a string of indefinite length, which has to be of the string's own type.
  unfoldable pub append_chunk :
      SiValue → List ℕ → Bool → ZvStackItem → List ZvStackItem → ZvCtx → ZvCtx
  append_chunk (str t) s is_text item rest ctx =
      if same_type item.si_type is_text
      then record ctx {
        stack = record item { ext = record (item.ext) { v = str (t ++ s) } } ∷ rest;
      }
      else set_error inconsistent_string_type ctx
  append_chunk _ s is_text item rest ctx = set_error inconsistent_string_type ctx

  -- The string goes to the string of indefinite length that is open, or else it is an item.
  unfoldable pub add_xstring : List ZvStackItem → List ℕ → Bool → ZvCtx → ZvCtx
  unfolding append_string append_chunk
  add_xstring [] s is_text ctx = append_string s is_text false ctx
  add_xstring (item ∷ rest) s is_text ctx =
      if is_string item.si_type
      then append_chunk item.ext.v s is_text item rest ctx
      else append_string s is_text false ctx

  -- `zv_do_xstring`.
  unfoldable pub do_xstring : List ℕ → Bool → ZvCtx → ZvCtx
  unfolding add_xstring
  do_xstring s is_text ctx =
      if is_text && not (has_flag ctx.args.flags Flag.unsafe_text) && not (is_utf8 s)
      then set_error utf8 ctx
      else add_xstring ctx.stack s is_text ctx

  unfoldable pub proc_array_start : ℕ → ZvCtx → ZvCtx
  unfolding push_item
  proc_array_start count ctx =
      let mem = ctx.mem in
      if ltb ctx.args.max_size count
      then set_error unsupported_size ctx
      else if ltb 0 mem.limit && ltb mem.limit (mem.offset + 1 + count)
      then set_error truncated_data ctx
      else if count == 0
      then append (array end) ctx
      else push_item SiType.array count (value (array end)) ctx

  -- `count * 2` is a product of 32-bit numbers.
  unfoldable pub proc_map_start : ℕ → ZvCtx → ZvCtx
  unfolding push_item new_map
  proc_map_start count ctx =
      let mem = ctx.mem in
      let (v, u) = new_map ctx in
      if ltb ctx.args.max_size count
      then set_error unsupported_size ctx
      else if ltb 0 mem.limit && ltb mem.limit (mem.offset + 1 + count * 2 % 2 ^ 32)
      then set_error truncated_data ctx
      else if count == 0
      then append v (set_u u ctx)
      else push_item SiType.map count (map v undef 0) (set_u u ctx)

  unfoldable pub proc_indef_map_start : ZvCtx → ZvCtx
  unfolding push_item new_map
  proc_indef_map_start ctx =
      let (v, u) = new_map ctx in push_item SiType.map 0 (map v undef 0) (set_u u ctx)

  -- A tag without a handler is an item that becomes a `Cbor\Tag`.
  unfoldable pub enter_tag : Thi → ℕ → ZvCtx → ZvCtx
  unfolding push_item push_handled
  enter_tag Thi.none id ctx = push_item SiType.tag 1 (tag_id id) ctx
  enter_tag thi id ctx = push_handled id thi ctx

  unfoldable pub proc_tag : ℕ → ZvCtx → ZvCtx
  unfolding enter_tag tag_handler
  proc_tag id ctx =
      if ltb long_max id then set_error int_range ctx else enter_tag (tag_handler id ctx) id ctx

  -- `zv_do_floatx`: a PHP float, or an object of its own class.
  unfoldable pub do_floatx : ℕ → Bool → ZvCtx → ZvCtx
  do_floatx raw is_32 ctx =
      let (v, u) = new_object (if is_32 then float32 raw else float16 raw) ctx.u in
      if has_flag ctx.args.flags (if is_32 then Flag.float32 else Flag.float16)
      then append (double (if is_32 then engine.from_fp32 raw else engine.from_fp16 raw)) ctx
      else append v (set_u u ctx)

  -- TEST_OVERFLOW_XINT32 is false and TEST_OVERFLOW_XINT64 tests the top bit.
  unfoldable pub zv_proc : Event → ZvCtx → ZvCtx
  unfolding do_xstring proc_array_start proc_map_start proc_indef_map_start proc_tag do_floatx
      push_item
  zv_proc (Event.uint32 n) ctx = append (long (pos n)) ctx
  zv_proc (Event.uint64 n) ctx = append (if ltb long_max n then xuint n else long (pos n)) ctx
  zv_proc (Event.nint32 n) ctx = append (long (negsuc n)) ctx
  zv_proc (Event.nint64 n) ctx = append (if ltb long_max n then xnint n else long (negsuc n)) ctx
  zv_proc (Event.byte_string s) ctx = do_xstring s false ctx
  zv_proc (Event.text_string s) ctx = do_xstring s true ctx
  zv_proc Event.byte_string_start ctx = push_item SiType.byte 0 (str []) ctx
  zv_proc Event.text_string_start ctx = push_item SiType.text 0 (str []) ctx
  zv_proc (Event.array_start count) ctx = proc_array_start count ctx
  zv_proc (Event.map_start count) ctx = proc_map_start count ctx
  zv_proc Event.indef_array_start ctx = push_item SiType.array 0 (value (array end)) ctx
  zv_proc Event.indef_map_start ctx = proc_indef_map_start ctx
  zv_proc (Event.tag_start id) ctx = proc_tag id ctx
  zv_proc (Event.boolean b) ctx = append (boolean b) ctx
  zv_proc Event.null ctx = append null ctx
  zv_proc Event.undefined ctx = append undefined ctx
  zv_proc (Event.simple n) ctx = set_error simple_type ctx
  zv_proc (Event.float16 n) ctx = do_floatx n false ctx
  zv_proc (Event.float32 n) ctx = do_floatx n true ctx
  zv_proc (Event.float64 n) ctx = append (double n) ctx

  -- The container that a break closes goes up.
  unfoldable pub close_container : SiValue → ZvStackItem → ZvCtx → ZvCtx
  unfolding append_string
  close_container (str s) item ctx = append_string s (same_type item.si_type true) true ctx
  close_container (value v) item ctx =
      if item.count == 0 then append v ctx else set_error break_unexpected ctx
  close_container (map dest key added) item ctx =
      if (item.count == 0) && wants_key (some item)
      then append dest ctx
      else set_error break_unexpected ctx
  close_container _ item ctx = set_error break_unexpected ctx

  -- `zv_proc_indef_break`, for the item that was popped.
  unfoldable pub zv_proc_indef_break : ZvStackItem → ZvCtx → ZvCtx
  unfolding close_container
  zv_proc_indef_break item ctx = close_container item.ext.v item ctx

  -- A reference at the root is unwrapped.
  unfoldable pub zv_dec_finish : Option CborError → ZvCtx → Option CborError × Option Zval
  zv_dec_finish (some e) ctx = (some e, none)
  zv_dec_finish none ctx = (none, some (unwrap ctx.u.cells ctx.u.root))

  -- `zv_dec_vt` with the METHOD functions.
  unfoldable pub zv_methods : Methods ZvItem ZvState Zval
  unfolding zv_proc zv_proc_indef_break zv_si_push zv_dec_finish
  zv_methods = record {
    proc = zv_proc;
    proc_indef_break = zv_proc_indef_break;
    si_push = zv_si_push;
    si_pop = λ item ctx. ctx;
    ctx_init = set_u (record { root = undef; srns = []; refs = []; objects = []; cells = [] });
    dec_finish = zv_dec_finish;
  }
