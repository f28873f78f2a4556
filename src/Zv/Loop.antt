-- ===== src/Zv/Loop.antt =====
-- src/decode_zv.h with src/decode.c: the steps of the loop over the items of a tree.
use php_ext_cbor.Base.{
  ℕ, suc, ◌+◌, ◌^◌, ◌≤◌, ◌<◌, ◌≡◌, refl, ◌∙◌, true, false, none, List, [], ◌++◌, ltb, ◌==◌, length,
  arith, append_assoc, length-append,
}
use php_ext_cbor.Codec.{Fragment}
use php_ext_cbor.Decode.Tokens.{Token, write_token, event_of}
use php_ext_cbor.Decode.Process.{advance, go_on, nested_loop}
use php_ext_cbor.Decode.Rounds.{Before, fits-Before, length-write_token, resume, nested_loop-token}
use php_ext_cbor.Zv.{Engine, Zval, Entries, end, ZvCtx}
use php_ext_cbor.Zv.Table.{push}
use php_ext_cbor.Zv.Tags.{is_xxint}
use php_ext_cbor.Zv.Append.{zv_append}
use php_ext_cbor.Zv.Proc.{zv_methods}
use php_ext_cbor.Zv.Frame.{zv_append-Shrinks}
use php_ext_cbor.Zv.Trees.{
  Tree, Trees, nil, cons, count, first_token, write_tree, write_trees, value_of, Allowed,
}
use php_ext_cbor.Zv.Opened.{
  is_leaf, Ready, methods, in_range, leaf-append, opened, start-array, append-opened, append-last,
}

-- The context in a fragment.
abbrev pub placed : Fragment → ZvCtx → ZvCtx
placed mem c = record c { mem = mem }

-- No tree is an integer out of PHP's range.
pub value_of-plain : (t : Tree) → is_xxint (value_of t) ≡ false
unfolding value_of
value_of-plain (Tree.uint n) = refl
value_of-plain _ = refl

pub length-write_tree : (t : Tree) → 1 ≤ length (write_tree t)
unfolding write_tree
length-write_tree (Tree.array ts) = omega (
  arith,
  length-append (write_token [] (first_token (Tree.array ts))) (write_trees ts),
  length-write_token (first_token (Tree.array ts)),
)
length-write_tree t = length-write_token (first_token t)

pub count-write_trees : (ts : Trees) → count ts ≤ length (write_trees ts)
unfolding write_trees count
count-write_trees nil = omega arith
count-write_trees (cons t ts) = omega (
  arith,
  length-append (write_tree t) (write_trees ts),
  length-write_tree t,
  count-write_trees ts,
)

pub open_depth : (d : ℕ) → (d + 1 == 0) ≡ false
open_depth d = ground arith

pub placed-Ready : (c : ZvCtx) (n : ℕ) → Ready c → Ready (placed (advance n c.mem) c)
placed-Ready c n r = record { quiet = r.quiet; raw = r.raw; plain = r.plain; limited = r.limited }

pub opened-Ready : (es : Entries) (n : ℕ) (c : ZvCtx) → Ready c → Ready (opened es n c)
opened-Ready es n c r = record {
  quiet = r.quiet;
  raw = r.raw;
  plain = (es, n, refl);
  limited = r.limited;
}

pub advance_twice :
    (i j k : ℕ) (mem : Fragment) → k ≡ i + j → advance k mem ≡ advance j (advance i mem)
advance_twice i j k mem e =
    let sum : mem.offset + k ≡ mem.offset + i + j = omega (arith, e) in rw sum refl

module _ (engine : Engine) where
  -- The loop behind a value that is appended: it goes on from behind `n` bytes of the context's.
  abbrev pub Continues : ℕ → ℕ → Zval → ℕ → ZvCtx → ZvCtx → Type 0
  Continues steps fuel v n c start =
      (mem : Fragment) × (nested_loop (methods engine) steps start
        ≡ resume (methods engine) fuel (
            go_on (methods engine) (zv_append engine v (placed mem c)).1.cb_error
              (placed (advance n start.mem) (zv_append engine v (placed mem c)).1)))

  -- A tree of one token.
  pub leaf-Continues :
      (t : Tree) (steps fuel : ℕ) (more : List ℕ) (c : ZvCtx)
      → is_leaf t ≡ true
      → Ready c
      → Allowed c.args c.stack_depth t
      → Before (write_token [] (first_token t)) more c.mem
      → steps ≡ suc fuel
      → Continues steps fuel (value_of t) (length (write_token [] (first_token t))) c c
  unfolding zv_methods
  leaf-Continues t steps fuel more c l r h b e =
      let called = leaf-append engine t c l r.plain r.raw h (
        ground (
          arith,
          r.limited,
          fits-Before (write_token [] (first_token t)) more c.mem b,
          length-write_token (first_token t),
        )) in
      let run =
        nested_loop-token (methods engine) fuel (first_token t) more c
          (in_range t c.args c.stack_depth h) b in
      (c.mem, rw e (run ∙ rw (called, (zv_append-Shrinks engine (value_of t) c).mem) refl))

  -- A context without an error and with an item open: the loop goes on.
  pub keep_going :
      (fuel : ℕ) (c : ZvCtx)
      → c.cb_error ≡ none
      → (c.stack_depth == 0) ≡ false
      → resume (methods engine) fuel (go_on (methods engine) c.cb_error c)
        ≡ nested_loop (methods engine) fuel c
  unfolding go_on resume
  keep_going fuel c quiet deep = rw (quiet, go_on, deep) refl

  -- An array is opened and the loop is at its first element.
  pub array_opened :
      (ts : Trees) (n fuel : ℕ) (more : List ℕ) (c : ZvCtx)
      → Ready c
      → c.args.max_depth < 2 ^ 32
      → c.stack_depth < c.args.max_depth
      → suc n ≤ c.args.max_size
      → suc n < 2 ^ 32
      → count ts ≡ suc n
      → Before (write_token [] (Token.array_of (suc n)) ++ write_trees ts) more c.mem
      → nested_loop (methods engine) (suc fuel) c
        ≡ nested_loop (methods engine) fuel (
            opened end
              (suc n)
              (placed (advance (length (write_token [] (Token.array_of (suc n)))) c.mem) c))
  unfolding zv_methods event_of
  array_opened ts n fuel more c r small deep long narrow counted b =
      let head = write_token [] (Token.array_of (suc n)) in
      let all = fits-Before (head ++ write_trees ts) more c.mem b in
      let inside : ltb c.mem.limit (c.mem.offset + 1 + suc n) ≡ false = ground (
        arith,
        r.limited,
        all,
        length-append head (write_trees ts),
        length-write_token (Token.array_of (suc n)),
        count-write_trees ts,
        counted,
      ) in
      let called = start-array engine n c r.plain deep small long inside in
      let run =
        nested_loop-token (methods engine) fuel (Token.array_of (suc n)) (write_trees ts ++ more) c
          narrow (b ∙ append_assoc head (write_trees ts) more) in
      run
      ∙ rw called (
          keep_going fuel (opened end (suc n) (placed (advance (length head) c.mem) c)) r.quiet
            (open_depth c.stack_depth))

  -- The last element of an array.
  pub last_element :
      (t : Tree) (es : Entries) (steps fuel n : ℕ) (c : ZvCtx)
      → Continues steps fuel (value_of t) n (opened es 1 c) (opened es 1 c)
      → Continues steps fuel (Zval.array (push (value_of t) es)) n c (opened es 1 c)
  last_element t es steps fuel n c (mem, run) =
      (mem, run ∙ rw (append-last engine es (value_of t) (placed mem c) (value_of-plain t)) refl)

  -- An element before others.
  pub next_element :
      (t : Tree) (es : Entries) (k steps fuel n : ℕ) (c : ZvCtx)
      → Ready c
      → Continues steps fuel (value_of t) n (opened es (suc (suc k)) c) (opened es (suc (suc k)) c)
      → nested_loop (methods engine) steps (opened es (suc (suc k)) c)
        ≡ nested_loop
            (methods engine)
            fuel
            (opened (push (value_of t) es) (suc k) (placed (advance n c.mem) c))
  next_element t es k steps fuel n c r (mem, run) =
      run
      ∙ rw (append-opened engine es k (value_of t) (placed mem c) (value_of-plain t)) (
          keep_going fuel (opened (push (value_of t) es) (suc k) (placed (advance n c.mem) c))
            r.quiet (open_depth c.stack_depth))

  -- The loop up to a position behind `i` bytes, and from there on.
  pub joined :
      (steps between fuel i j k : ℕ) (v : Zval) (c start next : ZvCtx)
      → k ≡ i + j
      → next.mem ≡ advance i start.mem
      → nested_loop (methods engine) steps start ≡ nested_loop (methods engine) between next
      → Continues between fuel v j (placed (advance i c.mem) c) next
      → Continues steps fuel v k c start
  joined steps between fuel i j k v c start next e at to (mem, run) =
      (mem, to ∙ run ∙ rw (at, advance_twice i j k start.mem e) refl)
