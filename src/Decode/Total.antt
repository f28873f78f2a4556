-- ===== src/Decode/Total.antt =====
-- src/decode.c: the loop over the items ends, and the position stays inside the fragment.
use php_ext_cbor.Base.{
  ℕ, zero, suc, ◌-◌, ◌≤◌, ◌<◌, ◌≡◌, inl, inr, refl, ◌∙◌, Option, none, some, List, leb, ◌==◌,
  length, arith, Bool-cases, if-elim, drop, length-take, length-drop,
}
use php_ext_cbor.Codec.{CborError, Fragment, DecodeArgs}
use php_ext_cbor.Decode.{Ctx, Methods}
use php_ext_cbor.Decode.Item.{ItemResult, dec_item}
use php_ext_cbor.Decode.Frame.{Keeps, dec_item-Kept}
use php_ext_cbor.Decode.Reads.{dec_item-Reads}
use php_ext_cbor.Decode.Process.{
  Outcome, done, stuck, Round, ret, again, rest_of, advance, round, go_on, after_item, nested_loop,
  decode_nested, decode_process, skip_self_describe, note_offset, decode, decode_init, noted,
  process_from, finish_all, decode_range, range_check, finish, check_end, Decoding,
}

-- The fragment's end is inside the text.
abbrev pub Fits : Fragment → Type 0
Fits mem = (mem.offset ≤ mem.length) × (mem.length ≤ length mem.ptr)

-- The same text and end, from a position that is no smaller and inside.
pub record Moved (mem mem' : Fragment) : Type 0 where
  pub same_length : mem'.length ≡ mem.length
  pub same_ptr : mem'.ptr ≡ mem.ptr
  pub same_base : mem'.base ≡ mem.base
  pub forward : mem.offset ≤ mem'.offset
  pub inside : mem'.offset ≤ mem.length

length-rest_of : (mem : Fragment) → Fits mem → length (rest_of mem) ≡ mem.length - mem.offset
length-rest_of mem h = omega (
  arith,
  length-take (mem.length - mem.offset) (drop mem.offset mem.ptr),
  length-drop mem.offset mem.ptr,
)

Moved-trans : {a b c : Fragment} → Moved a b → Moved b c → Moved a c
Moved-trans p q = record {
  same_length = q.same_length ∙ p.same_length;
  same_ptr = q.same_ptr ∙ p.same_ptr;
  same_base = q.same_base ∙ p.same_base;
  forward = omega arith;
  inside = omega arith;
}

done-injective : {A : Type 0} {a b : A} → done a ≡ done b → a ≡ b
done-injective e = cc

module _ {I U V : Type 0} (m : Methods I U V)
    (keeps : (mem : Fragment) → Keeps m (λ c. c.mem ≡ mem)) where
  -- What is known of a round: the position moves, by a byte at least if the loop goes on.
  abbrev RoundMoves : Ctx I U → Round m → Type 0
  RoundMoves ctx (ret e ctx') = Moved ctx.mem ctx'.mem
  RoundMoves ctx (again ctx') = Moved ctx.mem ctx'.mem × (ctx.mem.offset < ctx'.mem.offset)

  go_on-RoundMoves :
      (ctx ctx' : Ctx I U) (e : Option CborError)
      → Moved ctx.mem ctx'.mem
      → ctx.mem.offset < ctx'.mem.offset
      → RoundMoves ctx (go_on m e ctx')
  unfolding go_on
  go_on-RoundMoves ctx ctx' (some e) h f = h
  go_on-RoundMoves ctx ctx' none h f = if-elim (RoundMoves ctx) (ctx'.stack_depth == 0) h (h, f)

  advance-Moved :
      (mem : Fragment) (n : ℕ) → Fits mem → n ≤ mem.length - mem.offset → Moved mem (advance n mem)
  advance-Moved mem n h le = record {
    same_length = refl;
    same_ptr = refl;
    same_base = refl;
    forward = omega arith;
    inside = omega arith;
  }

  after_item-RoundMoves :
      (ctx : Ctx I U) (r : ItemResult I U)
      → Fits ctx.mem
      → (r.1.read_len ≤ ctx.mem.length - ctx.mem.offset)
      → (r.0 ≡ none → 1 ≤ r.1.read_len)
      → r.2.mem ≡ ctx.mem
      → RoundMoves ctx (after_item m r)
  unfolding after_item
  after_item-RoundMoves ctx (some e, out, ctx') h le lt same =
      rw same (advance-Moved ctx.mem out.read_len h le)
  after_item-RoundMoves ctx (none, out, ctx') h le lt same =
      go_on-RoundMoves ctx (record ctx' { mem = advance out.read_len ctx'.mem }) ctx'.cb_error
        (rw same (advance-Moved ctx.mem out.read_len h le)) (rw same (omega (arith, lt refl)))

  round-RoundMoves : (ctx : Ctx I U) → Fits ctx.mem → RoundMoves ctx (round m ctx)
  unfolding round
  round-RoundMoves ctx h = elim (Bool-cases (leb ctx.mem.length ctx.mem.offset)) [
    | inl e ↦ rw e (record {
      same_length = refl;
      same_ptr = refl;
      same_base = refl;
      forward = omega arith;
      inside = omega arith;
    })
    | inr e ↦
        let bytes = rest_of ctx.mem in
        let n = length-rest_of ctx.mem h in
        let reads = dec_item-Reads m bytes ctx (ground arith) in
        rw e (
          after_item-RoundMoves ctx (dec_item m bytes ctx) h (omega arith) reads.1
            (dec_item-Kept m _ (keeps ctx.mem) bytes ctx refl))
  ]

  abbrev pub Ends : ℕ → Ctx I U → Type 0
  Ends fuel ctx =
      (r : Option CborError × Ctx I U) × (nested_loop m fuel ctx ≡ done r) × Moved ctx.mem r.1.mem

  Moved-Fits : {a b : Fragment} → Fits a → Moved a b → Fits b
  Moved-Fits h p = (omega arith, rw (p.same_length, p.same_ptr) h.1)

  -- The loop behind a round, if it ends from the context that the round leaves.
  loop_round :
      (fuel : ℕ) (ctx : Ctx I U) (x : Round m)
      → round m ctx ≡ x
      → RoundMoves ctx x
      → ((ctx' : Ctx I U)
          → Moved ctx.mem ctx'.mem
          → ctx.mem.offset < ctx'.mem.offset
          → Ends fuel ctx')
      → Ends (suc fuel) ctx
  unfolding nested_loop
  loop_round fuel ctx (ret e ctx') p moved ih = ((e, ctx'), rw (p, nested_loop), moved)
  loop_round fuel ctx (again ctx') p (moved, f) ih =
      let (r, q, moved') = ih ctx' moved f in (r, rw (p, nested_loop) q, Moved-trans moved moved')

  -- With fuel for each byte that is left and one more round, the loop ends, inside the fragment.
  pub nested_loop-Ends :
      (fuel : ℕ) (ctx : Ctx I U)
      → Fits ctx.mem
      → ctx.mem.length - ctx.mem.offset < fuel
      → Ends fuel ctx
  nested_loop-Ends zero ctx h lt = absurd (omega arith)
  nested_loop-Ends (suc fuel) ctx h lt =
      loop_round fuel ctx (round m ctx) refl (round-RoundMoves ctx h) λ ctx' moved f.
        nested_loop-Ends fuel ctx' (Moved-Fits h moved) (omega (arith, moved.same_length))

  -- The outcome of a run from a fragment: it ends, inside the fragment.
  abbrev pub Finishes : Fragment → Outcome (Option CborError × Ctx I U) → Type 0
  Finishes mem o = (r : Option CborError × Ctx I U) × (o ≡ done r) × Moved mem r.1.mem

  decode_nested-Finishes : (ctx : Ctx I U) → Fits ctx.mem → Finishes ctx.mem (decode_nested m ctx)
  unfolding decode_nested
  decode_nested-Finishes ctx h =
      nested_loop-Ends (suc (ctx.mem.length - ctx.mem.offset)) (record ctx { cb_error = none }) h
        (omega arith)

  note_offset-mem : (e : Option CborError) (ctx : Ctx I U) → (note_offset m e ctx).mem ≡ ctx.mem
  note_offset-mem none ctx = refl
  note_offset-mem (some e) ctx = refl

  Moved-refl : (mem : Fragment) → Fits mem → Moved mem mem
  Moved-refl mem h = record {
    same_length = refl;
    same_ptr = refl;
    same_base = refl;
    forward = omega arith;
    inside = omega arith;
  }

  skip_self_describe-Moved :
      (ctx : Ctx I U) → Fits ctx.mem → Moved ctx.mem (skip_self_describe m ctx).1.mem
  unfolding skip_self_describe
  skip_self_describe-Moved ctx h = record {
    same_length = ground arith;
    same_ptr = ground arith;
    same_base = ground arith;
    forward = ground arith;
    inside = ground arith;
  }

  noted-Finishes :
      (mem : Fragment) (o : Outcome (Option CborError × Ctx I U))
      → Finishes mem o
      → Finishes mem (noted m o)
  unfolding noted
  noted-Finishes mem stuck h = absurd (cc (h.1))
  noted-Finishes mem (done r) (r', e, moved) = (
    (r.0, note_offset m r.0 r.1),
    refl,
    rw (note_offset-mem r.0 r.1) (rw (done-injective e) moved),
  )

  process_from-Finishes :
      (p : Option CborError × Ctx I U) → Fits p.1.mem → Finishes p.1.mem (process_from m p)
  unfolding process_from
  process_from-Finishes (some e, ctx) h =
      ((some e, note_offset m (some e) ctx), refl, Moved-refl ctx.mem h)
  process_from-Finishes (none, ctx) h =
      noted-Finishes ctx.mem (decode_nested m ctx) (decode_nested-Finishes ctx h)

  -- A run over a fragment ends, and leaves the position inside it.
  pub decode_process-Finishes :
      (ctx : Ctx I U) → Fits ctx.mem → Finishes ctx.mem (decode_process m ctx)
  unfolding decode_process
  decode_process-Finishes ctx h =
      let step = skip_self_describe-Moved ctx h in
      let (r, e, moved) = process_from-Finishes (skip_self_describe m ctx) (Moved-Fits h step) in
      (r, e, Moved-trans step moved)

  finish_all-done :
      (mem : Fragment) (o : Outcome (Option CborError × Ctx I U))
      → Finishes mem o
      → (d : Decoding m) × (finish_all m o ≡ done d)
  unfolding finish_all
  finish_all-done mem stuck h = absurd (cc (h.1))
  finish_all-done mem (done r) h = (finish m (check_end m r), refl)

  module _ (init_mem : (c : Ctx I U) → (m.ctx_init c).mem ≡ c.mem) (u : U) (args : DecodeArgs)
      (bytes : List ℕ) where
    decode_range-done :
        (p : Option CborError × ℕ)
        → (p.0 ≡ none → (args.offset ≤ p.1) × (p.1 ≤ length bytes))
        → (d : Decoding m) × (decode_range m u args bytes p ≡ done d)
    unfolding decode_range decode_init
    decode_range-done (some e, end) h = (_, refl)
    decode_range-done (none, end) h =
        finish_all-done _ _
          (decode_process-Finishes (decode_init m args _ u) (rw (init_mem _) (h refl)))

    range_check-inside :
        (range_check m args (length bytes)).0 ≡ none
        → (args.offset ≤ (range_check m args (length bytes)).1)
          × ((range_check m args (length bytes)).1 ≤ length bytes)
    unfolding range_check
    range_check-inside e = ground arith

    -- Decoding ends on every input with every argument.
    pub decode-done : (d : Decoding m) × (decode m u args bytes ≡ done d)
    unfolding decode
    decode-done = decode_range-done (range_check m args (length bytes)) range_check-inside
