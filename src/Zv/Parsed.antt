-- ===== src/Zv/Parsed.antt =====
-- src/decode_zv.h with src/decode.c: the loop over the items of a tree builds the tree's value.
use php_ext_cbor.Base.{
  ℕ, suc, ◌+◌, ◌^◌, ◌<◌, ◌≡◌, refl, ap, ◌∙◌, List, [], ◌++◌, length, arith, append_assoc,
  length-append, append-nil,
}
use php_ext_cbor.Codec.{DecodeArgs}
use php_ext_cbor.Decode.Tokens.{Token, write_token}
use php_ext_cbor.Decode.Process.{advance, nested_loop}
use php_ext_cbor.Decode.Rounds.{Before, Before-advance}
use php_ext_cbor.Zv.{Engine, Zval, Entries, end, ZvCtx}
use php_ext_cbor.Zv.Table.{push}
use php_ext_cbor.Zv.Trees.{
  Tree, Trees, nil, cons, count, first_token, write_tree, write_trees, size, sizes, value_of,
  push_all, Allowed, AllAllowed,
}
use php_ext_cbor.Zv.Opened.{Ready, methods, opened}
use php_ext_cbor.Zv.Loop.{
  placed, Continues, leaf-Continues, placed-Ready, opened-Ready, array_opened, last_element,
  next_element, joined,
}

module _ (engine : Engine) where
  -- An array, if the loop does its elements right.
  array_step :
      (ts : Trees) (steps fuel : ℕ) (more : List ℕ) (c : ZvCtx)
      → Ready c
      → Allowed c.args c.stack_depth (Tree.array ts)
      → c.args.max_depth < 2 ^ 32
      → Before (write_tree (Tree.array ts)) more c.mem
      → steps ≡ size (Tree.array ts) + fuel
      → (let inner =
            placed (advance (length (write_token [] (Token.array_of (count ts)))) c.mem) c in
          0 < count ts
          → Continues engine
              (sizes ts + fuel)
              fuel
              (Zval.array (push_all ts end))
              (length (write_trees ts))
              inner
              (opened end (count ts) inner))
      → Continues engine steps fuel
          (value_of (Tree.array ts))
          (length (write_tree (Tree.array ts)))
          c
          c
  unfolding write_tree size value_of write_token first_token count
  array_step nil steps fuel more c r h small b e ih =
      leaf-Continues engine (Tree.array nil) steps fuel more c refl r h b (omega (arith, e))
  array_step (cons t ts) steps fuel more c r h small b e ih =
      let head = write_token [] (Token.array_of (count (cons t ts))) in
      let left = sizes (cons t ts) + fuel in
      let one_more : steps ≡ suc left = omega (arith, e) in
      let at_first =
        array_opened engine (cons t ts) (count ts) left more c r small h.0 h.1 h.2 refl b in
      joined engine steps left fuel (length head) (length (write_trees (cons t ts)))
        (length (head ++ write_trees (cons t ts))) (Zval.array (push_all (cons t ts) end)) c c
        (opened end (count (cons t ts)) (placed (advance (length head) c.mem) c))
        (length-append head (write_trees (cons t ts))) refl
        (ap (λ (k : ℕ). nested_loop (methods engine) k c) one_more ∙ at_first) (ih (omega arith))

  inner-Allowed :
      (a : DecodeArgs) (depth : ℕ) (ts : Trees)
      → Allowed a depth (Tree.array ts)
      → AllAllowed a (depth + 1) ts
  inner-Allowed a depth nil h = record {}
  inner-Allowed a depth (cons t ts) h = h.3

  -- The elements, if the loop does the first one and the others right.
  elements_step :
      (t : Tree) (ts : Trees) (es : Entries) (steps fuel : ℕ) (c : ZvCtx)
      → Ready c
      → Continues engine steps
          (sizes ts + fuel)
          (value_of t)
          (length (write_tree t))
          (opened es (suc (count ts)) c)
          (opened es (suc (count ts)) c)
      → (let later = placed (advance (length (write_tree t)) c.mem) c in
          0 < count ts
          → Continues engine
              (sizes ts + fuel)
              fuel
              (Zval.array (push_all ts (push (value_of t) es)))
              (length (write_trees ts))
              later
              (opened (push (value_of t) es) (count ts) later))
      → Continues engine steps fuel
          (Zval.array (push_all (cons t ts) es))
          (length (write_trees (cons t ts)))
          c
          (opened es (suc (count ts)) c)
  unfolding write_tree size value_of count
  elements_step t nil es steps fuel c r first ih =
      let same : 0 + fuel ≡ fuel = omega arith in
      let first' : Continues engine steps fuel (value_of t) (length (write_tree t)) (opened es 1 c)
          (opened es 1 c) =
        rw same at first in
      rw (append-nil (write_tree t))
        (last_element engine t es steps fuel (length (write_tree t)) c first')
  elements_step t (cons u us) es steps fuel c r first ih =
      joined engine steps (sizes (cons u us) + fuel) fuel (length (write_tree t))
        (length (write_trees (cons u us))) (length (write_tree t ++ write_trees (cons u us)))
        (Zval.array (push_all (cons u us) (push (value_of t) es))) c
        (opened es (suc (suc (count us))) c)
        (opened (push (value_of t) es) (suc (count us))
          (placed (advance (length (write_tree t)) c.mem) c))
        (length-append (write_tree t) (write_trees (cons u us))) refl
        (next_element engine t es (count us) steps (sizes (cons u us) + fuel)
          (length (write_tree t)) c r first)
        (ih (omega arith))

  mutual
    unfolding write_tree size value_of count

    -- The loop over a tree appends the tree's value and goes on behind the tree.
    pub tree-Continues :
        (t : Tree) (steps fuel : ℕ) (more : List ℕ) (c : ZvCtx)
        → Ready c
        → Allowed c.args c.stack_depth t
        → c.args.max_depth < 2 ^ 32
        → Before (write_tree t) more c.mem
        → steps ≡ size t + fuel
        → Continues engine steps fuel (value_of t) (length (write_tree t)) c c
    tree-Continues (Tree.array ts) steps fuel more c r h small b e =
        let head = write_token [] (Token.array_of (count ts)) in
        array_step ts steps fuel more c r h small b e λ some_left.
          elements-Continues ts end (sizes ts + fuel) fuel more
            (placed (advance (length head) c.mem) c) some_left (placed-Ready c (length head) r)
            (inner-Allowed c.args c.stack_depth ts h) small
            (Before-advance head (write_trees ts ++ more) c.mem
              (b ∙ append_assoc head (write_trees ts) more))
            refl
    tree-Continues t steps fuel more c r h small b e =
        leaf-Continues engine t steps fuel more c refl r h b (omega (arith, e))

    elements-Continues :
        (ts : Trees) (es : Entries) (steps fuel : ℕ) (more : List ℕ) (c : ZvCtx)
        → 0 < count ts
        → Ready c
        → AllAllowed c.args (c.stack_depth + 1) ts
        → c.args.max_depth < 2 ^ 32
        → Before (write_trees ts) more c.mem
        → steps ≡ sizes ts + fuel
        → Continues engine steps fuel
            (Zval.array (push_all ts es))
            (length (write_trees ts))
            c
            (opened es (count ts) c)
    elements-Continues nil es steps fuel more c one r h small b e = absurd (omega (arith, one))
    elements-Continues (cons t ts) es steps fuel more c one r h small b e =
        let behind = b ∙ append_assoc (write_tree t) (write_trees ts) more in
        elements_step t ts es steps fuel c r
          (tree-Continues t steps (sizes ts + fuel) (write_trees ts ++ more)
            (opened es (suc (count ts)) c) (opened-Ready es (suc (count ts)) c r) h.0 small behind
            (omega (arith, e)))
          λ some_left.
            elements-Continues ts (push (value_of t) es) (sizes ts + fuel) fuel more
              (placed (advance (length (write_tree t)) c.mem) c) some_left
              (placed-Ready c (length (write_tree t)) r) h.1 small
              (Before-advance (write_tree t) (write_trees ts ++ more) c.mem behind) refl
