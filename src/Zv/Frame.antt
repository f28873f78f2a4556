-- ===== src/Zv/Frame.antt =====
-- src/decode_zv.h: what the methods leave alone, and that the depth is the number of open items.
use php_ext_cbor.Base.{
  ℕ, ◌-◌, ◌≤◌, ◌≡◌, refl, sym, ap, ◌∙◌, ◌&&◌, Option, none, some, List, [], ◌∷◌, leb, ◌==◌, length,
  arith, if-elim,
}
use php_ext_cbor.Codec.{CborError}
use php_ext_cbor.Decode.{set_error}
use php_ext_cbor.Zv.{
  Engine, Entries, Zval, undef, array, Thi, SiValue, value, map, tag_id, tag_handled, tag_shareable,
  ZvState, ZvCtx, ZvStackItem,
}
use php_ext_cbor.Zv.Table.{num_elements, push}
use php_ext_cbor.Zv.Tags.{is_xxint, set_u, str_ref_exit}
use php_ext_cbor.Zv.Share.{call_exit, shareable_exit, shared_ref_exit}
use php_ext_cbor.Zv.Append.{
  pop_top, put_top, with_v, Appended, count_down, append_to_array, append_key, append_entry,
  append_to_map, append_to_tag, append_to_tag_handled, append_to_item, append_from, zv_append,
  key_error, write_entry, fail_or, unless_error,
}

-- The same fragment and arguments.
pub record SameInput (c c' : ZvCtx) : Type 0 where
  pub mem : c'.mem ≡ c.mem
  pub args : c'.args ≡ c.args

-- The same stack too.
pub record SameStack (c c' : ZvCtx) : Type 0 where
  pub mem : c'.mem ≡ c.mem
  pub args : c'.args ≡ c.args
  pub stack : c'.stack ≡ c.stack
  pub depth : c'.stack_depth ≡ c.stack_depth

str_ref_exit-SameStack : (v : Zval) (c : ZvCtx) → SameStack c (str_ref_exit v c).1
unfolding str_ref_exit set_error
str_ref_exit-SameStack v c = ground arith

shareable_exit-SameStack :
    (v : Zval) (s : SiValue) (c : ZvCtx) → SameStack c (shareable_exit v s c).1
unfolding shareable_exit set_error
shareable_exit-SameStack v s c = ground arith

shared_ref_exit-SameStack : (v : Zval) (c : ZvCtx) → SameStack c (shared_ref_exit v c).1
unfolding shared_ref_exit set_error
shared_ref_exit-SameStack v c = ground arith

call_exit-SameStack :
    (thi : Thi) (v : Zval) (s : SiValue) (c : ZvCtx) → SameStack c (call_exit thi v s c).1
unfolding call_exit
call_exit-SameStack Thi.none v s c = record { mem = refl; args = refl; stack = refl; depth = refl }
call_exit-SameStack Thi.str_ref_ns v s c = record {
  mem = refl;
  args = refl;
  stack = refl;
  depth = refl;
}
call_exit-SameStack Thi.str_ref v s c = str_ref_exit-SameStack v c
call_exit-SameStack Thi.shareable v s c = shareable_exit-SameStack v s c
call_exit-SameStack Thi.shared_ref v s c = shared_ref_exit-SameStack v c

-- The depth counts the open items.
abbrev pub Counted : ZvCtx → Type 0
Counted c = c.stack_depth ≡ length c.stack

-- A change that keeps the input and the count, and leaves no more items open than there were.
pub record Shrinks (c c' : ZvCtx) : Type 0 where
  pub mem : c'.mem ≡ c.mem
  pub args : c'.args ≡ c.args
  pub counted : Counted c → Counted c'
  pub fewer : length c'.stack ≤ length c.stack

Shrinks-refl : (c : ZvCtx) → Shrinks c c
Shrinks-refl c = record { mem = refl; args = refl; counted = λ h. h; fewer = omega arith }

Shrinks-trans : {a b c : ZvCtx} → Shrinks a b → Shrinks b c → Shrinks a c
Shrinks-trans p q = record {
  mem = q.mem ∙ p.mem;
  args = q.args ∙ p.args;
  counted = λ h. q.counted (p.counted h);
  fewer = omega arith;
}

set_error-Shrinks : (e : CborError) (c : ZvCtx) → Shrinks c (set_error e c)
unfolding set_error
set_error-Shrinks e c = record { mem = refl; args = refl; counted = λ h. h; fewer = omega arith }

pub set_u-Shrinks : (s : ZvState) (c : ZvCtx) → Shrinks c (set_u s c)
set_u-Shrinks s c = record { mem = refl; args = refl; counted = λ h. h; fewer = omega arith }

pub SameStack-Shrinks : {b c : ZvCtx} → SameStack b c → Shrinks b c
SameStack-Shrinks h = record {
  mem = h.mem;
  args = h.args;
  counted = λ p. h.depth ∙ p ∙ sym (ap length h.stack);
  fewer = omega (arith, ap length h.stack);
}

pub pop_top-Shrinks :
    (item : ZvStackItem) (rest : List ZvStackItem) (c : ZvCtx)
    → c.stack ≡ item ∷ rest
    → Shrinks c (pop_top rest c)
pop_top-Shrinks item rest c e = record {
  mem = refl;
  args = refl;
  counted = λ h. omega (arith, ap length e);
  fewer = omega (arith, ap length e);
}

pub put_top-Shrinks :
    (old item : ZvStackItem) (rest : List ZvStackItem) (c : ZvCtx)
    → c.stack ≡ old ∷ rest
    → Shrinks c (put_top item rest c)
put_top-Shrinks old item rest c e = record {
  mem = refl;
  args = refl;
  counted = λ h. omega (arith, ap length e);
  fewer = omega (arith, ap length e);
}

-- An append to the items below `old`, which is on the top.
module _ (up : Zval → ZvCtx → Appended) (old : ZvStackItem) (rest : List ZvStackItem)
    (ih : (v : Zval) (c : ZvCtx) → c.stack ≡ rest → Shrinks c (up v c).1) where
  count_down-Shrinks :
      (item : ZvStackItem) (whole : Zval) (c : ZvCtx)
      → c.stack ≡ old ∷ rest
      → Shrinks c (count_down up item rest whole c).1
  unfolding count_down
  count_down-Shrinks item whole c e =
      if-elim (λ (r : Appended). Shrinks c r.1) (item.count == 0)
        (put_top-Shrinks old item rest c e)
        (if-elim (λ (r : Appended). Shrinks c r.1) (item.count == 1)
          (Shrinks-trans (pop_top-Shrinks old rest c e) (ih whole (pop_top rest c) refl))
          (put_top-Shrinks old (record item { count = item.count - 1 }) rest c e))

  array-Shrinks :
      (es : Entries) (v : Zval) (c : ZvCtx)
      → c.stack ≡ old ∷ rest
      → Shrinks c (append_to_array up old rest es v c).1
  unfolding append_to_array
  array-Shrinks es v c e =
      if-elim (λ (r : Appended). Shrinks c r.1) (is_xxint v) (set_error-Shrinks _ c)
        (if-elim (λ (r : Appended). Shrinks c r.1)
          ((old.count == 0) && leb c.args.max_size (num_elements es)) (set_error-Shrinks _ c)
          (count_down-Shrinks (with_v (value (array (push v es))) old) (array (push v es)) c e))

  fail_or-Shrinks :
      (e : Option CborError) (c : ZvCtx) (r : Appended)
      → Shrinks c r.1
      → Shrinks c (fail_or e c r).1
  unfolding fail_or
  fail_or-Shrinks (some e) c r h = set_error-Shrinks e c
  fail_or-Shrinks none c r h = h

  key-Shrinks :
      (dest : Zval) (n : ℕ) (v : Zval) (c : ZvCtx)
      → c.stack ≡ old ∷ rest
      → Shrinks c (append_key old rest dest n v c).1
  unfolding append_key
  key-Shrinks dest n v c e =
      if-elim (λ (r : Appended). Shrinks c r.1) _ (set_error-Shrinks _ c)
        (fail_or-Shrinks (key_error c v) c _ (put_top-Shrinks old _ rest c e))

  module _ (engine : Engine) where
    entry-Shrinks :
        (dest key : Zval) (n : ℕ) (v : Zval) (c : ZvCtx)
        → c.stack ≡ old ∷ rest
        → Shrinks c (append_entry engine up old rest dest key n v c).1
    unfolding append_entry
    entry-Shrinks dest key n v c e =
        if-elim (λ (r : Appended). Shrinks c r.1) (is_xxint v) (set_error-Shrinks _ c)
          (fail_or-Shrinks (write_entry engine dest key v c).0 c
            (count_down up (with_v (map (write_entry engine dest key v c).1 undef n) old) rest
              (write_entry engine dest key v c).1 (set_u (write_entry engine dest key v c).2 c))
            (Shrinks-trans (set_u-Shrinks (write_entry engine dest key v c).2 c) (
              count_down-Shrinks (with_v (map (write_entry engine dest key v c).1 undef n) old)
                (write_entry engine dest key v c).1 (set_u (write_entry engine dest key v c).2 c)
                e)))

    map-Shrinks :
        (dest key : Zval) (n : ℕ) (v : Zval) (c : ZvCtx)
        → c.stack ≡ old ∷ rest
        → Shrinks c (append_to_map engine up old rest dest key n v c).1
    unfolding append_to_map
    map-Shrinks dest undef n v c e = key-Shrinks dest n v c e
    map-Shrinks dest key n v c e = entry-Shrinks dest key n v c e

    tag-Shrinks :
        (id : ℕ) (v : Zval) (c : ZvCtx)
        → c.stack ≡ old ∷ rest
        → Shrinks c (append_to_tag engine up rest id v c).1
    unfolding append_to_tag
    tag-Shrinks id v c e =
        if-elim (λ (r : Appended). Shrinks c r.1) (is_xxint v) (set_error-Shrinks _ c)
          (Shrinks-trans
            (Shrinks-trans (set_u-Shrinks _ c) (pop_top-Shrinks old rest (set_u _ c) e))
            (ih _ (pop_top rest (set_u _ c)) refl))

    unless_error-Shrinks :
        (e : Option CborError) (b c : ZvCtx) (r : Appended)
        → Shrinks b c
        → Shrinks c r.1
        → Shrinks b (unless_error engine e c r).1
    unfolding unless_error
    unless_error-Shrinks (some e) b c r h k = h
    unless_error-Shrinks none b c r h k = Shrinks-trans h k

    handled-Shrinks :
        (thi : Thi) (s : SiValue) (v : Zval) (c : ZvCtx)
        → c.stack ≡ old ∷ rest
        → Shrinks c (append_to_tag_handled engine up rest thi s v c).1
    unfolding append_to_tag_handled
    handled-Shrinks thi s v c e =
        let same = call_exit-SameStack thi v s (pop_top rest c) in
        unless_error-Shrinks _ c _ _
          (Shrinks-trans (pop_top-Shrinks old rest c e) (SameStack-Shrinks same))
          (ih _ _ same.stack)

    item-Shrinks :
        (w : SiValue) (v : Zval) (c : ZvCtx)
        → c.stack ≡ old ∷ rest
        → Shrinks c (append_to_item engine w up old rest v c).1
    unfolding append_to_item
    item-Shrinks (value (array es)) v c e = array-Shrinks es v c e
    item-Shrinks (map dest key n) v c e = map-Shrinks dest key n v c e
    item-Shrinks (tag_id id) v c e = tag-Shrinks id v c e
    item-Shrinks (tag_handled id thi) v c e = handled-Shrinks thi (tag_handled id thi) v c e
    item-Shrinks (tag_shareable id thi w i) v c e =
        handled-Shrinks thi (tag_shareable id thi w i) v c e
    item-Shrinks _ v c e = set_error-Shrinks _ c

module _ (engine : Engine) where
  append_from-Shrinks :
      (stack : List ZvStackItem) (v : Zval) (c : ZvCtx)
      → c.stack ≡ stack
      → Shrinks c (append_from engine stack v c).1
  unfolding append_from
  append_from-Shrinks [] v c e =
      if-elim (λ (r : Appended). Shrinks c r.1) (is_xxint v) (set_error-Shrinks _ c)
        (set_u-Shrinks _ c)
  append_from-Shrinks (item ∷ rest) v c e =
      item-Shrinks (append_from engine rest) item rest (append_from-Shrinks rest) engine item.ext.v
        v c e

  -- An append leaves the input alone, keeps the count of the open items right, and opens none.
  pub zv_append-Shrinks : (v : Zval) (c : ZvCtx) → Shrinks c (zv_append engine v c).1
  unfolding zv_append
  zv_append-Shrinks v c = append_from-Shrinks c.stack v c refl
