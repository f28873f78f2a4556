-- ===== src/Zv/Opened.antt =====
-- src/decode_zv.h: appending to an array that waits for values, and the methods of single tokens.
use php_ext_cbor.Base.{
  ℕ, suc, ◌+◌, ◌-◌, ◌%◌, ◌^◌, ◌≤◌, ◌<◌, ◌≡◌, refl, Bool, true, false, none, List, [], ◌∷◌, ltb, leb,
  ◌==◌, arith,
}
use php_ext_cbor.Codec.{DecodeArgs, has_flag}
use php_ext_cbor.Codec.Flag
use php_ext_cbor.Decode.{SiType, Methods, Event, stack_push_item}
use php_ext_cbor.Decode.Tokens.{event_of, InRange}
use php_ext_cbor.Zv.{Engine, Zval, Entries, end, Thi, value, ZvItem, ZvState, ZvCtx, ZvStackItem}
use php_ext_cbor.Zv.Table.{push}
use php_ext_cbor.Zv.Tags.{is_xxint}
use php_ext_cbor.Zv.Share.{zv_si_push, push_under, child_handlers}
use php_ext_cbor.Zv.Append.{append_to_array, append_from, zv_append, count_down, append_to_item}
use php_ext_cbor.Zv.Proc.{
  zv_proc, zv_methods, push_item, proc_array_start, do_xstring, add_xstring, append_string,
  string_value,
}
use php_ext_cbor.Zv.Trees.{Tree, nil, cons, count, first_token, size, value_of, Allowed}

-- The item of an array that waits for `n` more values behind those of `es`.
abbrev pub open_array : Entries → ℕ → ZvStackItem
open_array es n = record {
  si_type = SiType.array;
  count = n;
  ext = record {
    thi_data = Thi.none;
    thi_child0 = Thi.none;
    thi_child1 = Thi.none;
    v = value (Zval.array es);
  };
}

-- A tree of one token.
abbrev pub is_leaf : Tree → Bool
is_leaf (Tree.array (cons t ts)) = false
is_leaf _ = true

-- Nothing is open, or an array without a handler is innermost.
abbrev pub PlainTop : List ZvStackItem → Type 0
PlainTop [] = Unit
PlainTop (item ∷ rest) = (es : Entries) × (n : ℕ) × (item ≡ open_array es n)

-- A context that reads byte strings as PHP strings, without an error so far.
pub record Ready (c : ZvCtx) : Type 0 where
  pub quiet : c.cb_error ≡ none
  pub raw : has_flag c.args.flags Flag.byte ≡ true
  pub plain : PlainTop c.stack
  pub limited : c.mem.limit ≡ c.mem.length

pub in_range : (t : Tree) (a : DecodeArgs) (depth : ℕ) → Allowed a depth t → InRange (first_token t)
unfolding first_token count
in_range (Tree.uint n) a depth h = omega arith
in_range (Tree.nint n) a depth h = omega arith
in_range (Tree.bytes s) a depth h = h
in_range (Tree.boolean b) a depth h = omega arith
in_range Tree.null a depth h = omega arith
in_range Tree.undefined a depth h = omega arith
in_range (Tree.float64 n) a depth h = h
in_range (Tree.array nil) a depth h = omega arith
in_range (Tree.array (cons t ts)) a depth h = h.2

-- The context with an array open.
abbrev pub opened : Entries → ℕ → ZvCtx → ZvCtx
opened es n c = record c { stack = open_array es n ∷ c.stack; stack_depth = c.stack_depth + 1 }

pub push_under_plain :
    (stack : List ZvStackItem) (item : ZvStackItem) (c : ZvCtx)
    → PlainTop stack
    → push_under stack item c ≡ (c, item)
unfolding push_under child_handlers
push_under_plain [] item c p = refl
push_under_plain (parent ∷ rest) item c (es, n, q) = rw q refl

pub push_array :
    (n : ℕ) (c : ZvCtx)
    → PlainTop c.stack
    → c.stack_depth < c.args.max_depth
    → c.args.max_depth < 2 ^ 32
    → push_item SiType.array n (value (Zval.array end)) c ≡ opened end n c
unfolding push_item stack_push_item zv_si_push
push_array n c p deep small =
    let free : leb c.args.max_depth c.stack_depth ≡ false = ground arith in
    let next : (c.stack_depth + 1) % 2 ^ 32 ≡ c.stack_depth + 1 = omega arith in
    rw (free, push_under_plain c.stack (open_array end n) c p, next) refl

module _ (engine : Engine) where
  abbrev pub methods : Methods ZvItem ZvState Zval
  methods = zv_methods engine

  -- An empty array is appended at once.
  pub array-start :
      (c : ZvCtx)
      → ltb c.mem.limit (c.mem.offset + 1) ≡ false
      → proc_array_start engine 0 c ≡ (zv_append engine (Zval.array end) c).1
  unfolding proc_array_start
  array-start c lim = ground arith

  pub string-append :
      (s : List ℕ) (stack : List ZvStackItem) (c : ZvCtx)
      → c.stack ≡ stack
      → PlainTop stack
      → has_flag c.args.flags Flag.byte ≡ true
      → add_xstring engine stack s false c ≡ (zv_append engine (Zval.string s) c).1
  unfolding add_xstring append_string string_value
  string-append s [] c e p raw = rw (append_string, e, string_value, raw) refl
  string-append s (item ∷ rest) c e (es, n, q) raw =
      rw (append_string, e, q, string_value, raw) refl

  -- The method of a tree of one token appends the tree's value.
  pub leaf-append :
      (t : Tree) (c : ZvCtx)
      → is_leaf t ≡ true
      → PlainTop c.stack
      → has_flag c.args.flags Flag.byte ≡ true
      → Allowed c.args c.stack_depth t
      → ltb c.mem.limit (c.mem.offset + 1) ≡ false
      → zv_proc engine (event_of (first_token t)) c ≡ (zv_append engine (value_of t) c).1
  unfolding zv_proc do_xstring proc_array_start event_of first_token value_of count
  leaf-append (Tree.uint n) c l p raw h _ = ground arith
  leaf-append (Tree.nint n) c l p raw h _ = ground arith
  leaf-append (Tree.bytes s) c l p raw h _ = string-append s c.stack c refl p raw
  leaf-append (Tree.boolean b) c l p raw h _ = refl
  leaf-append Tree.null c l p raw h _ = refl
  leaf-append Tree.undefined c l p raw h _ = refl
  leaf-append (Tree.float64 n) c l p raw h _ = refl
  leaf-append (Tree.array nil) c l p raw h lim = array-start c lim
  leaf-append (Tree.array (cons t ts)) c l p raw h _ = absurd (cc l)

  pub start-array :
      (n : ℕ) (c : ZvCtx)
      → PlainTop c.stack
      → c.stack_depth < c.args.max_depth
      → c.args.max_depth < 2 ^ 32
      → suc n ≤ c.args.max_size
      → ltb c.mem.limit (c.mem.offset + 1 + suc n) ≡ false
      → zv_proc engine (Event.array_start (suc n)) c ≡ opened end (suc n) c
  unfolding zv_proc proc_array_start
  start-array n c p deep small size lim = ground (arith, push_array (suc n) c p deep small)

  -- A value for an open array that waits for more than one.
  pub append-opened :
      (es : Entries) (n : ℕ) (v : Zval) (c : ZvCtx)
      → is_xxint v ≡ false
      → zv_append engine v (opened es (suc (suc n)) c) ≡ (true, opened (push v es) (suc n) c)
  unfolding zv_append append_from append_to_item append_to_array count_down
  append-opened es n v c x =
      let some_left : (suc (suc n) == 0) ≡ false = ground arith in
      let more_left : (suc (suc n) == 1) ≡ false = ground arith in
      let left : suc (suc n) - 1 ≡ suc n = omega arith in rw (x, some_left, more_left, left) refl

  -- The last value: the array goes up.
  pub append-last :
      (es : Entries) (v : Zval) (c : ZvCtx)
      → is_xxint v ≡ false
      → zv_append engine v (opened es 1 c) ≡ zv_append engine (Zval.array (push v es)) c
  unfolding zv_append append_from append_to_item append_to_array count_down
  append-last es v c x =
      let back : c.stack_depth + 1 - 1 ≡ c.stack_depth = omega arith in rw (x, back) refl
