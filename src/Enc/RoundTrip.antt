-- ===== src/Enc/RoundTrip.antt =====
-- `cbor_encode` of src/encode.c on plain data: what it writes, and that `cbor_decode` of src/decode.c
-- gives the data back.
use Prim.Native.Nat.{max}
use php_ext_cbor.Base.{
  ℕ, zero, suc, ◌+◌, ◌-◌, ◌^◌, ◌≤◌, ◌<◌, ◌≡◌, refl, sym, ap, ◌∙◌, Bool, Option, true, false, ◌&&◌,
  none, some, List, [], ◌++◌, ltb, ◌==◌, length, arith, append_assoc, append-nil,
}
use php_ext_cbor.Codec.{DecodeArgs, has_flag}
use php_ext_cbor.Codec.Flag
use php_ext_cbor.Di.Encoder.{
  int_head, write_int, write_null, write_bool, write_undef, write_float64,
}
use php_ext_cbor.Decode.Process.{done, decode}
use php_ext_cbor.Decode.Tokens.{write_token}
use php_ext_cbor.Options.Encoding.{EncodeArgs}
use php_ext_cbor.Zv.{Engine, Zval, ZvState, Entries, end, entry, index}
use php_ext_cbor.Zv.Table.{push, push_from, num_elements}
use php_ext_cbor.Zv.Opened.{methods}
use php_ext_cbor.Zv.Trees.{
  Tree, Trees, nil, cons, count, first_token, write_tree, write_trees, value_of, push_all, Allowed,
}
use php_ext_cbor.Zv.RoundTrip.{decode-write_tree}
use php_ext_cbor.Enc.{Srns, EncCtx, EncEngine, Heap, Status, good}
use php_ext_cbor.Enc.Scalars.{enc_long, enc_z_double, float_type}
use php_ext_cbor.Enc.Strings.{enc_string, enc_string_in, write_string}
use php_ext_cbor.Enc.Hash.{is_list_from, enc_entries, enc_plain_hash, enc_hash, unprotect}
use php_ext_cbor.Enc.Encode.{
  enc_php_string, enc_direct, enc_any, enc_zval, leave, encode_start, encode, text_of, result_of,
}

-- The elements as entries with the keys from `i` on.
numbered : ℕ → Trees → Entries
numbered i nil = end
numbered i (cons t ts) = entry (index i) (value_of t) (numbered (i + 1) ts)

join : Entries → Entries → Entries
join end fs = fs
join (entry k v es) fs = entry k v (join es fs)

push_from-join :
    (i : ℕ) (v : Zval) (es fs : Entries)
    → join (push_from i v es) fs ≡ join es (entry (index (i + num_elements es)) v fs)
unfolding push_from join num_elements
push_from-join i v end fs =
    ap (λ (j : ℕ). entry (index j) v fs) (let e : i ≡ i + 0 = omega arith in e)
push_from-join i v (entry k w es) fs = ap (entry k w) (
    push_from-join (i + 1) v es fs
    ∙ ap (λ (j : ℕ). join es (entry (index j) v fs))
        (let e : i + 1 + num_elements es ≡ i + suc (num_elements es) = omega arith in e))

num_elements-push_from :
    (i : ℕ) (v : Zval) (es : Entries) → num_elements (push_from i v es) ≡ suc (num_elements es)
unfolding push_from num_elements
num_elements-push_from i v end = refl
num_elements-push_from i v (entry k w es) = ap suc (num_elements-push_from (i + 1) v es)

join-end : (es : Entries) → join es end ≡ es
unfolding join
join-end end = refl
join-end (entry k v es) = ap (entry k v) (join-end es)

push_all-numbered :
    (ts : Trees) (es : Entries) → push_all ts es ≡ join es (numbered (num_elements es) ts)
unfolding push_all numbered push
push_all-numbered nil es = sym (join-end es)
push_all-numbered (cons t ts) es =
    let n = num_elements es in
    let keys : (num_elements (push_from 0 (value_of t) es) ≡ n + 1) × (0 + n ≡ n) =
      omega (arith, num_elements-push_from 0 (value_of t) es) in
    push_all-numbered ts (push_from 0 (value_of t) es)
    ∙ push_from-join 0 (value_of t) es (numbered (num_elements (push_from 0 (value_of t) es)) ts)
    ∙ ap (λ (i : ℕ). join es (entry (index (0 + n)) (value_of t) (numbered i ts))) keys.0
    ∙ ap (λ (i : ℕ). join es (entry (index i) (value_of t) (numbered (n + 1) ts))) keys.1

elements : (ts : Trees) → push_all ts end ≡ numbered 0 ts
unfolding join num_elements
elements ts = push_all-numbered ts end

num_elements-numbered : (ts : Trees) (i : ℕ) → num_elements (numbered i ts) ≡ count ts
unfolding num_elements numbered count
num_elements-numbered nil i = refl
num_elements-numbered (cons t ts) i = ap suc (num_elements-numbered ts (i + 1))

numbered-is_list : (ts : Trees) (i : ℕ) → is_list_from i (numbered i ts) ≡ true
unfolding is_list_from numbered
numbered-is_list nil i = refl
numbered-is_list (cons t ts) i =
    let same : (i == i) ≡ true = ground arith in rw same (numbered-is_list ts (i + 1))

-- The number of calls of `enc_zval` below the tree's own.
unfoldable mutual
  pub height : Tree → ℕ
  height (Tree.array ts) = heights ts
  height t = 0

  pub heights : Trees → ℕ
  heights nil = 0
  heights (cons t ts) = max (suc (height t)) (heights ts)

-- Strings are bytes, floats keep their 64 bits, and nothing stands in front of the value.
pub record IsPlain (args : EncodeArgs) : Type 0 where
  pub raw : has_flag args.e_flags Flag.byte ≡ true
  pub no_text : has_flag args.e_flags Flag.text ≡ false
  pub no_16 : has_flag args.e_flags Flag.float16 ≡ false
  pub no_32 : has_flag args.e_flags Flag.float32 ≡ false
  pub bare : has_flag args.e_flags Flag.self_describe ≡ false
  pub no_refs : args.string_ref ≡ 0

abbrev with_buf : EncCtx → List ℕ → EncCtx × Status
with_buf ctx b = (record ctx { buf = b }, good)

never : (a b : Bool) → (a && b && false) ≡ false
never true true = refl
never true false = refl
never false true = refl
never false false = refl

module _ (engine : EncEngine) (heap : Heap) where
  -- A value at its place: the test of the depth passes, and the depth is what it was.
  step :
      (fuel : ℕ) (ctx : EncCtx) (v : Zval) (b : List ℕ)
      → ctx.cur_depth ≤ ctx.args.max_depth
      → enc_any engine heap
          (enc_zval engine heap fuel)
          (record ctx { cur_depth = ctx.cur_depth + 1 })
          v
        ≡ (record ctx { cur_depth = ctx.cur_depth + 1; buf = b }, good)
      → enc_zval engine heap (suc fuel) ctx v ≡ (record ctx { buf = b }, good)
  unfolding enc_zval
  step fuel ctx v b shallow run =
      let passes : ltb ctx.args.max_depth ctx.cur_depth ≡ false = ground arith in
      let back : ctx.cur_depth + 1 - 1 ≡ ctx.cur_depth = omega arith in
      rw passes (
        ap leave run
        ∙ ap
            (λ (d : ℕ).
              let r : EncCtx × Status = (record ctx { cur_depth = d; buf = b }, good) in r)
            back)

  string_bytes :
      (ctx : EncCtx) (s : List ℕ)
      → IsPlain ctx.args
      → ctx.srns ≡ none
      → enc_php_string ctx s ≡ (record ctx { buf = ctx.buf ++ (int_head 64 (length s) ++ s) }, good)
  unfolding enc_php_string enc_string enc_string_in write_string write_int
  string_bytes ctx s p fresh =
      rw (p.raw, p.no_text)
        (ap (λ (ns : Option Srns). enc_string_in ctx ns s false) fresh
          ∙ ap (with_buf ctx) (append_assoc ctx.buf (int_head 64 (length s)) s))

  -- An array whose elements are written one after another.
  array_bytes :
      (enc : EncCtx → Zval → EncCtx × Status) (ctx : EncCtx) (ts : Trees)
      → enc_entries enc true
          (record ctx { buf = ctx.buf ++ int_head 128 (count ts) })
          (numbered 0 ts)
        ≡ (record ctx { buf = (ctx.buf ++ int_head 128 (count ts)) ++ write_trees ts }, good)
      → enc_hash enc engine ctx none true (push_all ts end)
        ≡ (record ctx { buf = ctx.buf ++ (int_head 128 (count ts) ++ write_trees ts) }, good)
  unfolding enc_hash enc_plain_hash write_int
  array_bytes enc ctx ts run =
      rw
        (
          elements ts,
          numbered-is_list ts 0,
          num_elements-numbered ts 0,
          never (ltb 0 (count ts)) (has_flag ctx.args.e_flags Flag.cde),
        )
        (ap (unprotect none) run
          ∙ ap (with_buf ctx) (append_assoc ctx.buf (int_head 128 (count ts)) (write_trees ts)))

  mutual
    unfolding enc_any enc_direct value_of write_tree write_trees write_token first_token enc_long
        write_int height heights write_null write_bool write_undef write_float64 enc_z_double
        float_type enc_entries numbered

    tree_bytes :
        (t : Tree) (fuel : ℕ) (ctx : EncCtx)
        → IsPlain ctx.args
        → ctx.srns ≡ none
        → ctx.cur_depth + height t ≤ ctx.args.max_depth
        → height t < fuel
        → enc_zval engine heap fuel ctx (value_of t)
          ≡ (record ctx { buf = ctx.buf ++ write_tree t }, good)
    tree_bytes t zero ctx p fresh h f = elim f [ ]
    tree_bytes (Tree.uint n) (suc fuel) ctx p fresh h f = step fuel ctx _ _ (omega arith) refl
    tree_bytes (Tree.nint n) (suc fuel) ctx p fresh h f = step fuel ctx _ _ (omega arith) refl
    tree_bytes (Tree.bytes b) (suc fuel) ctx p fresh h f =
        step fuel ctx _ _ (omega arith)
          (string_bytes (record ctx { cur_depth = ctx.cur_depth + 1 }) b p fresh)
    tree_bytes (Tree.boolean b) (suc fuel) ctx p fresh h f = step fuel ctx _ _ (omega arith) refl
    tree_bytes Tree.null (suc fuel) ctx p fresh h f = step fuel ctx _ _ (omega arith) refl
    tree_bytes Tree.undefined (suc fuel) ctx p fresh h f = step fuel ctx _ _ (omega arith) refl
    tree_bytes (Tree.float64 n) (suc fuel) ctx p fresh h f =
        step fuel ctx _ _ (omega arith) (rw (p.no_16, p.no_32) refl)
    tree_bytes (Tree.array ts) (suc fuel) ctx p fresh h f =
        let inner = record ctx { cur_depth = ctx.cur_depth + 1 } in
        step fuel ctx _ _ (omega arith) (
          array_bytes (enc_zval engine heap fuel) inner ts (
            trees_bytes ts 0 fuel (record inner { buf = ctx.buf ++ int_head 128 (count ts) }) p
              fresh
              (let shallow : ctx.cur_depth + 1 + heights ts ≤ ctx.args.max_depth + 1 =
                  omega arith in
                shallow)
              (omega arith)))

    trees_bytes :
        (ts : Trees) (i fuel : ℕ) (ctx : EncCtx)
        → IsPlain ctx.args
        → ctx.srns ≡ none
        → ctx.cur_depth + heights ts ≤ ctx.args.max_depth + 1
        → heights ts ≤ fuel
        → enc_entries (enc_zval engine heap fuel) true ctx (numbered i ts)
          ≡ (record ctx { buf = ctx.buf ++ write_trees ts }, good)
    trees_bytes nil i fuel ctx p fresh h f = ap (with_buf ctx) (sym (append-nil ctx.buf))
    trees_bytes (cons t ts) i fuel ctx p fresh h f =
        rw (tree_bytes t fuel ctx p fresh (omega arith) (omega arith)) (
          trees_bytes ts (i + 1) fuel (record ctx { buf = ctx.buf ++ write_tree t }) p fresh
            (omega arith) (omega arith)
          ∙ ap (with_buf ctx) (append_assoc ctx.buf (write_tree t) (write_trees ts)))

  -- The value of a tree is encoded as the tree is written, if the flags ask for byte strings and full
  -- floats, nothing stands in front of the value, and the tree is not deeper than the limit.
  pub encode-value_of :
      (args : EncodeArgs) (t : Tree)
      → IsPlain args
      → height t ≤ args.max_depth
      → encode engine heap args (value_of t) ≡ text_of (write_tree t)
  unfolding encode encode_start
  encode-value_of args t p h =
      let other : (args.string_ref == 1) ≡ false = rw p.no_refs refl in
      rw (p.bare, other)
        (ap result_of (
          tree_bytes t (args.max_depth + 2)
            (record {
              args = args;
              cur_depth = 0;
              in_enc_params = 0;
              buf = [];
              srns = none;
              refs = [];
              protected = [];
            })
            p refl (omega arith) (omega arith)))

  -- What `cbor_encode` gives for the value of a tree is text that `cbor_decode` takes back to the same
  -- value, if the encoder's flags ask for byte strings and full floats and nothing in front of the
  -- value, the decoder's ask for byte strings as PHP strings and the whole text, and the tree is inside
  -- the limits of both.
  pub decode-encode :
      (decoder : Engine) (state : ZvState) (args : EncodeArgs) (dec_args : DecodeArgs) (t : Tree)
      → IsPlain args
      → height t ≤ args.max_depth
      → has_flag dec_args.flags Flag.byte ≡ true
      → Allowed dec_args 0 t
      → dec_args.max_depth < 2 ^ 32
      → dec_args.offset ≡ 0
      → dec_args.length ≡ none
      → (text : List ℕ) × (encode engine heap args (value_of t) ≡ text_of text)
        × (decode (methods decoder) state dec_args text
            ≡ done (record { error = none; error_offset = 0; value = some (value_of t) }))
  decode-encode decoder state args dec_args t p h raw allowed small from to = (
    write_tree t,
    encode-value_of args t p h,
    decode-write_tree decoder state dec_args t raw allowed small from to,
  )
