-- ===== src/Zv/Keeps.antt =====
-- src/decode_zv.h: what every method keeps. A predicate that holds on after a value is appended and
-- after an item is pushed holds on after every method.
use php_ext_cbor.Base.{
  ℕ, ◌+◌, ◌-◌, ◌*◌, ◌%◌, ◌^◌, ◌≡◌, inl, inr, refl, sym, ap, ◌∙◌, Bool, true, false, ◌&&◌, List, [],
  ◌∷◌, ltb, leb, ◌==◌, if◌then◌else◌, length, arith, Bool-cases, if-elim,
}
use php_ext_cbor.Codec.{CborError}
use php_ext_cbor.Decode.{SiType, Event, set_error, stack_push_item}
use php_ext_cbor.Decode.Frame.{Keeps}
use php_ext_cbor.Zv.{
  Engine, Zval, Thi, SiValue, value, str, map, ZvItem, ZvState, ZvCtx, ZvStackItem,
}
use php_ext_cbor.Zv.Tags.{
  set_u, set_child_handler, str_ref_ns_child, str_ref_ns_enter, str_ref_enter, str_ref_ns_data,
}
use php_ext_cbor.Zv.Share.{
  call_child, shareable_child, call_enter, shareable_enter, zv_si_push, child_handlers, push_under,
}
use php_ext_cbor.Zv.Append.{zv_append}
use php_ext_cbor.Zv.Frame.{
  SameStack, Shrinks, zv_append-Shrinks, SameStack-Shrinks, pop_top-Shrinks, put_top-Shrinks,
  set_u-Shrinks,
}
use php_ext_cbor.Zv.Proc.{
  push_item, call_data, append_string, append_chunk, add_xstring, do_xstring, enter_tag,
  close_container, proc_array_start, proc_map_start, proc_indef_map_start, proc_tag, push_handled,
  do_floatx, zv_proc, zv_proc_indef_break, zv_methods,
}

set_error-SameStack : (e : CborError) (c : ZvCtx) → SameStack c (set_error e c)
unfolding set_error
set_error-SameStack e c = record { mem = refl; args = refl; stack = refl; depth = refl }

set_child_handler-SameStack :
    (thi : Thi) (c : ZvCtx) (item : ZvItem) → SameStack c (set_child_handler thi c item).0
unfolding set_child_handler set_error
set_child_handler-SameStack thi c item = ground arith

call_child-SameStack :
    (thi : Thi) (c : ZvCtx) (item self : ZvStackItem) → SameStack c (call_child thi c item self).0
unfolding call_child str_ref_ns_child shareable_child set_error
call_child-SameStack Thi.str_ref_ns c item self =
    ground (arith, set_child_handler-SameStack Thi.str_ref_ns c item.ext)
call_child-SameStack Thi.shareable c item self = ground arith
call_child-SameStack _ c item self = record { mem = refl; args = refl; stack = refl; depth = refl }

call_enter-SameStack :
    (thi : Thi) (c : ZvCtx) (item : ZvItem) → SameStack c (call_enter thi c item).1
unfolding call_enter str_ref_ns_enter str_ref_enter shareable_enter set_error
call_enter-SameStack Thi.str_ref_ns c item = ground (
  arith,
  set_child_handler-SameStack Thi.str_ref_ns c (record item { thi_data = Thi.str_ref_ns }),
)
call_enter-SameStack Thi.str_ref c item = ground arith
call_enter-SameStack Thi.shareable c item =
    ground (arith, set_child_handler-SameStack Thi.shareable c item)
call_enter-SameStack Thi.shared_ref c item = record {
  mem = refl;
  args = refl;
  stack = refl;
  depth = refl;
}
call_enter-SameStack Thi.none c item = record {
  mem = refl;
  args = refl;
  stack = refl;
  depth = refl;
}

-- The same input, and as many items as before.
pub record Level (c c' : ZvCtx) : Type 0 where
  pub level_mem : c'.mem ≡ c.mem
  pub level_args : c'.args ≡ c.args
  pub level_depth : c'.stack_depth ≡ c.stack_depth
  pub level_height : length c'.stack ≡ length c.stack

-- The parent is written back to the place it has.
push_below :
    (b c : ZvCtx) (old new : ZvStackItem) (rest : List ZvStackItem)
    → SameStack b c
    → b.stack ≡ old ∷ rest
    → Level b (record c { stack = new ∷ rest })
push_below b c old new rest s e = record {
  level_mem = s.mem;
  level_args = s.args;
  level_depth = s.depth;
  level_height = sym (ap length e);
}

SameStack-trans : {a b c : ZvCtx} → SameStack a b → SameStack b c → SameStack a c
SameStack-trans p q = record {
  mem = q.mem ∙ p.mem;
  args = q.args ∙ p.args;
  stack = q.stack ∙ p.stack;
  depth = q.depth ∙ p.depth;
}

Level-refl : (c : ZvCtx) → Level c c
Level-refl c = record {
  level_mem = refl;
  level_args = refl;
  level_depth = refl;
  level_height = refl;
}

child_handlers-Level :
    (thi : Thi) (item parent : ZvStackItem) (rest : List ZvStackItem) (c : ZvCtx)
    → c.stack ≡ parent ∷ rest
    → Level c (child_handlers thi item parent rest c).0
unfolding child_handlers
child_handlers-Level Thi.none item parent rest c e = Level-refl c
child_handlers-Level thi item parent rest c e =
    push_below c _ parent _ rest
      (SameStack-trans (call_child-SameStack thi c item parent)
        (call_child-SameStack parent.ext.thi_child1 _ _ _))
      e

push_under-Level :
    (stack : List ZvStackItem) (item : ZvStackItem) (c : ZvCtx)
    → c.stack ≡ stack
    → Level c (push_under stack item c).0
unfolding push_under
push_under-Level [] item c e = Level-refl c
push_under-Level (parent ∷ rest) item c e =
    child_handlers-Level parent.ext.thi_child0 item parent rest c e

zv_si_push-Level : (item : ZvStackItem) (c : ZvCtx) → Level c (zv_si_push item c).0
unfolding zv_si_push
zv_si_push-Level item c = push_under-Level c.stack item c refl

-- Appending keeps `P`, and so does pushing below the limit on the depth.
pub record Closed (P : ZvCtx → Type 0) : Type 0 where
  pub shrinks : {b c : ZvCtx} → Shrinks b c → P b → P c
  pub pushed :
      (b c : ZvCtx) (item : ZvStackItem)
      → P b
      → Level b c
      → leb b.args.max_depth b.stack_depth ≡ false
      → P (record c { stack = item ∷ c.stack; stack_depth = (c.stack_depth + 1) % 2 ^ 32 })

module _ (P : ZvCtx → Type 0) (closed : Closed P) where
  same-P : {b c : ZvCtx} → SameStack b c → P b → P c
  same-P s h = closed.shrinks (SameStack-Shrinks s) h

  stack_push_item-P : (item : ZvStackItem) (c : ZvCtx) → P c → P (stack_push_item zv_si_push item c)
  unfolding stack_push_item
  stack_push_item-P item c h = elim (Bool-cases (leb c.args.max_depth c.stack_depth)) [
    | inl e ↦ rw e (same-P (set_error-SameStack _ c) h)
    | inr e ↦
        rw e (
          closed.pushed c (zv_si_push item c).0 (zv_si_push item c).1 h (zv_si_push-Level item c) e)
  ]

  error-P : (e : CborError) (c : ZvCtx) → P c → P (set_error e c)
  error-P e c h = same-P (set_error-SameStack e c) h

  push_item-P : (t : SiType) (n : ℕ) (v : SiValue) (c : ZvCtx) → P c → P (push_item t n v c)
  unfolding push_item
  push_item-P t n v c h = stack_push_item-P _ c h

  push_entered :
      (p : Bool) (item : ZvStackItem) (c : ZvCtx)
      → P c
      → P (if p then stack_push_item zv_si_push item c else c)
  push_entered p item c h = if-elim P p (stack_push_item-P item c h) h

  push_handled-P : (id : ℕ) (thi : Thi) (c : ZvCtx) → P c → P (push_handled id thi c)
  unfolding push_handled
  push_handled-P id thi c h = push_entered _ _ _ (same-P (call_enter-SameStack thi c _) h)

  call_data-SameStack : (thi : Thi) (v : Zval) (c : ZvCtx) → SameStack c (call_data thi v c)
  unfolding str_ref_ns_data set_error
  call_data-SameStack Thi.str_ref_ns v c = ground arith
  call_data-SameStack _ v c = record { mem = refl; args = refl; stack = refl; depth = refl }

  set_u-P : (s : ZvState) (c : ZvCtx) → P c → P (set_u s c)
  set_u-P s c h = closed.shrinks (set_u-Shrinks s c) h

  module _ (engine : Engine) where
    append-P : (v : Zval) (c : ZvCtx) → P c → P (zv_append engine v c).1
    append-P v c h = closed.shrinks (zv_append-Shrinks engine v c) h

    append_string-P : (s : List ℕ) (t i : Bool) (c : ZvCtx) → P c → P (append_string engine s t i c)
    unfolding append_string
    append_string-P s t i c h = if-elim P _ (error-P _ c h) (
        append-P _ _
          (if-elim P i (set_u-P _ c h) (same-P (call_data-SameStack _ _ _) (set_u-P _ c h))))

    append_chunk-P :
        (v : SiValue) (s : List ℕ) (t : Bool) (item : ZvStackItem) (rest : List ZvStackItem)
        (c : ZvCtx)
        → c.stack ≡ item ∷ rest
        → P c
        → P (append_chunk engine v s t item rest c)
    unfolding append_chunk
    append_chunk-P (str w) s t item rest c e h =
        if-elim P _ (closed.shrinks (put_top-Shrinks item _ rest c e) h) (error-P _ c h)
    append_chunk-P _ s t item rest c e h = error-P _ c h

    add_xstring-P :
        (stack : List ZvStackItem) (s : List ℕ) (t : Bool) (c : ZvCtx)
        → c.stack ≡ stack
        → P c
        → P (add_xstring engine stack s t c)
    unfolding add_xstring
    add_xstring-P [] s t c e h = append_string-P s t false c h
    add_xstring-P (item ∷ rest) s t c e h =
        if-elim P _ (append_chunk-P item.ext.v s t item rest c e h) (append_string-P s t false c h)

    do_xstring-P : (s : List ℕ) (t : Bool) (c : ZvCtx) → P c → P (do_xstring engine s t c)
    unfolding do_xstring
    do_xstring-P s t c h = if-elim P _ (error-P _ c h) (add_xstring-P c.stack s t c refl h)

    array_start-P : (n : ℕ) (c : ZvCtx) → P c → P (proc_array_start engine n c)
    unfolding proc_array_start
    array_start-P n c h = if-elim P (ltb c.args.max_size n) (error-P _ c h) (
        if-elim P (ltb 0 c.mem.limit && ltb c.mem.limit (c.mem.offset + 1 + n)) (error-P _ c h)
          (if-elim P (n == 0) (append-P _ c h) (push_item-P _ _ _ c h)))

    map_start-P : (n : ℕ) (c : ZvCtx) → P c → P (proc_map_start engine n c)
    unfolding proc_map_start
    map_start-P n c h = if-elim P (ltb c.args.max_size n) (error-P _ c h) (
        if-elim P (ltb 0 c.mem.limit && ltb c.mem.limit (c.mem.offset + 1 + n * 2 % 2 ^ 32))
          (error-P _ c h)
          (if-elim P (n == 0) (append-P _ _ (set_u-P _ c h)) (push_item-P _ _ _ _ (set_u-P _ c h))))

    enter_tag-P : (thi : Thi) (id : ℕ) (c : ZvCtx) → P c → P (enter_tag engine thi id c)
    unfolding enter_tag
    enter_tag-P Thi.none id c h = push_item-P _ _ _ c h
    enter_tag-P thi id c h = push_handled-P id thi c h

    floatx-P : (n : ℕ) (b : Bool) (c : ZvCtx) → P c → P (do_floatx engine n b c)
    unfolding do_floatx
    floatx-P n b c h = if-elim P _ (append-P _ c h) (append-P _ _ (set_u-P _ c h))

    zv_proc-P : (e : Event) (c : ZvCtx) → P c → P (zv_proc engine e c)
    unfolding zv_proc proc_indef_map_start proc_tag
    zv_proc-P (Event.uint32 n) c h = append-P _ c h
    zv_proc-P (Event.uint64 n) c h = append-P _ c h
    zv_proc-P (Event.nint32 n) c h = append-P _ c h
    zv_proc-P (Event.nint64 n) c h = append-P _ c h
    zv_proc-P (Event.byte_string s) c h = do_xstring-P s false c h
    zv_proc-P (Event.text_string s) c h = do_xstring-P s true c h
    zv_proc-P Event.byte_string_start c h = push_item-P _ _ _ c h
    zv_proc-P Event.text_string_start c h = push_item-P _ _ _ c h
    zv_proc-P (Event.array_start n) c h = array_start-P n c h
    zv_proc-P (Event.map_start n) c h = map_start-P n c h
    zv_proc-P Event.indef_array_start c h = push_item-P _ _ _ c h
    zv_proc-P Event.indef_map_start c h = push_item-P _ _ _ _ (set_u-P _ c h)
    zv_proc-P (Event.tag_start id) c h = if-elim P _ (error-P _ c h) (enter_tag-P _ id c h)
    zv_proc-P (Event.boolean b) c h = append-P _ c h
    zv_proc-P Event.null c h = append-P _ c h
    zv_proc-P Event.undefined c h = append-P _ c h
    zv_proc-P (Event.simple n) c h = error-P _ c h
    zv_proc-P (Event.float16 n) c h = floatx-P n false c h
    zv_proc-P (Event.float32 n) c h = floatx-P n true c h
    zv_proc-P (Event.float64 n) c h = append-P _ c h

    close_container-P :
        (v : SiValue) (item : ZvStackItem) (c : ZvCtx) → P c → P (close_container engine v item c)
    unfolding close_container
    close_container-P (str s) item c h = append_string-P s _ true c h
    close_container-P (value v) item c h = if-elim P _ (append-P v c h) (error-P _ c h)
    close_container-P (map dest key n) item c h = if-elim P _ (append-P dest c h) (error-P _ c h)
    close_container-P _ item c h = error-P _ c h

    popped-P :
        (item : ZvStackItem) (rest : List ZvStackItem) (c : ZvCtx)
        → c.stack ≡ item ∷ rest
        → P c
        → P (record c { stack = rest; stack_depth = c.stack_depth - 1 })
    popped-P item rest c e h = closed.shrinks (pop_top-Shrinks item rest c e) h

    -- Every method keeps what appending and pushing keep.
    pub zv_methods-Keeps : Keeps (zv_methods engine) P
    unfolding zv_methods zv_proc_indef_break
    zv_methods-Keeps = record {
      on_proc = zv_proc-P;
      on_break = λ item rest c e h.
          close_container-P item.ext.v item
            (record c { stack = rest; stack_depth = c.stack_depth - 1 }) (popped-P item rest c e h);
      on_error = error-P;
    }
