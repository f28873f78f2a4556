-- ===== src/Zv/RoundTrip.antt =====
-- `cbor_decode` of src/decode.c with the methods of src/decode_zv.h, on data that was written with
-- the functions of src/di_encoder.c.
use php_ext_cbor.Base.{
  ℕ, suc, ◌+◌, ◌-◌, ◌^◌, ◌≤◌, ◌<◌, ◌≡◌, refl, sym, ap, ◌∙◌, Bool, true, false, not, none, some,
  List, [], ◌++◌, ◌==◌, length, arith, length-append, take, get_or, append-nil, take-length,
}
use php_ext_cbor.Codec.{Fragment, DecodeArgs, has_flag}
use php_ext_cbor.Codec.Flag
use php_ext_cbor.Di.Encoder.{int_head, write_int}
use php_ext_cbor.Decode.Tokens.{write_token}
use php_ext_cbor.Decode.Process.{
  done, advance, go_on, decode_nested, skip_self_describe, noted, process_from, decode_process,
  decode_init, range_check, decode_range, finish_all, finish, decode,
}
use php_ext_cbor.Decode.Rounds.{resume, length-write_token}
use php_ext_cbor.Zv.{Engine, Zval, ZvState, ZvCtx}
use php_ext_cbor.Zv.Append.{zv_append, append_from}
use php_ext_cbor.Zv.Proc.{zv_methods, unwrap, zv_dec_finish}
use php_ext_cbor.Zv.Tags.{set_u}
use php_ext_cbor.Zv.Trees.{
  Tree, Trees, nil, cons, count, first_token, write_tree, write_trees, size, sizes, value_of,
  Allowed,
}
use php_ext_cbor.Zv.Opened.{methods}
use php_ext_cbor.Zv.Loop.{placed, value_of-plain, length-write_tree}
use php_ext_cbor.Zv.Parsed.{tree-Continues}

-- A tree has no more tokens than bytes.
mutual
  unfolding size write_tree

  size_bound : (t : Tree) → size t ≤ length (write_tree t)
  size_bound (Tree.array ts) = omega (
    arith,
    length-append (write_token [] (first_token (Tree.array ts))) (write_trees ts),
    length-write_token (first_token (Tree.array ts)),
    sizes_bound ts,
  )
  size_bound t = length-write_tree t

  sizes_bound : (ts : Trees) → sizes ts ≤ length (write_trees ts)
  sizes_bound nil = omega arith
  sizes_bound (cons t ts) =
      omega (arith, length-append (write_tree t) (write_trees ts), size_bound t, sizes_bound ts)

-- No tree begins like the tag that describes CBOR data.
head_byte :
    (m val : ℕ) (rest : List ℕ) → m ≤ 128 → (get_or (int_head m val ++ rest) 0 0 == 0xd9) ≡ false
unfolding int_head
head_byte m val rest h = ground arith

first_byte : (t : Tree) → (get_or (write_tree t) 0 0 == 0xd9) ≡ false
unfolding write_tree write_token first_token write_int
first_byte (Tree.uint n) = rw (sym (append-nil (int_head 0 n))) (head_byte 0 n [] (omega arith))
first_byte (Tree.nint n) = rw (sym (append-nil (int_head 32 n))) (head_byte 32 n [] (omega arith))
first_byte (Tree.bytes s) = head_byte 64 (length s) s (omega arith)
first_byte (Tree.boolean true) = refl
first_byte (Tree.boolean false) = refl
first_byte Tree.null = refl
first_byte Tree.undefined = refl
first_byte (Tree.float64 n) = refl
first_byte (Tree.array ts) = head_byte 128 (count ts) (write_trees ts) (omega arith)

unwrap-value_of : (cells : List Zval) (t : Tree) → unwrap cells (value_of t) ≡ value_of t
unfolding value_of
unwrap-value_of cells (Tree.uint n) = refl
unwrap-value_of cells _ = refl

take_all : (xs : List ℕ) → take (length xs - 0) xs ≡ xs
take_all xs =
    let whole : length xs - 0 ≡ length xs = omega arith in
    rw whole (ap (take (length xs)) (sym (append-nil xs)) ∙ take-length xs [])

module _ (engine : Engine) (s : ZvState) (args : DecodeArgs) (t : Tree) where
  -- The context before the first byte, with the self-description done.
  abbrev whole : Fragment
  whole = record {
    length = length (write_tree t);
    offset = 0;
    limit = length (write_tree t);
    base = 0;
    ptr = write_tree t;
  }

  abbrev start : Bool → ZvCtx
  start skip = record {
    args = args;
    error_offset = 0;
    cb_error = none;
    skip_self_desc = skip;
    mem = whole;
    stack = [];
    stack_depth = 0;
    u = record { root = Zval.undef; srns = []; refs = []; objects = []; cells = [] };
  }

  skips : (skip : Bool) → skip_self_describe (methods engine) (start skip) ≡ (none, start false)
  unfolding skip_self_describe
  skips true = ground (arith, first_byte t, length-write_tree t)
  skips false = refl

  -- What is left in the end.
  abbrev final : ZvCtx
  final = record (start false) {
    mem = advance (length (write_tree t)) whole;
    u = record { root = value_of t; srns = []; refs = []; objects = []; cells = [] };
  }

  appended :
      (mem : Fragment)
      → zv_append engine (value_of t) (placed mem (start false))
        ≡ (true, set_u final.u (placed mem (start false)))
  unfolding zv_append append_from
  appended mem = rw (value_of-plain t) refl

  ended :
      (fuel : ℕ) (mem : Fragment)
      → (let c = (zv_append engine (value_of t) (placed mem (start false))).1 in
          resume (methods engine) fuel (go_on (methods engine) c.cb_error (placed final.mem c))
          ≡ done (none, final))
  unfolding resume go_on
  ended fuel mem = rw (appended mem) refl

  runs :
      has_flag args.flags Flag.byte ≡ true
      → Allowed args 0 t
      → args.max_depth < 2 ^ 32
      → decode_nested (methods engine) (start false) ≡ done (none, final)
  unfolding decode_nested
  runs raw h small =
      let fuel = suc (length (write_tree t)) - size t in
      let (mem, run) =
        tree-Continues engine t (suc (length (write_tree t) - 0)) fuel [] (start false)
          (record { quiet = refl; raw = raw; plain = record {}; limited = refl }) h small
          (take_all (write_tree t) ∙ sym (append-nil (write_tree t)))
          (omega (arith, size_bound t)) in
      run ∙ ended fuel mem

  finished :
      finish_all (methods engine) (done (none, final))
      ≡ done (record { error = none; error_offset = 0; value = some (value_of t) })
  unfolding finish_all zv_methods zv_dec_finish
  finished =
      let at_end : (0 + length (write_tree t) == length (write_tree t)) ≡ true = ground arith in
      rw (at_end, finish, unwrap-value_of [] t) refl

  processed :
      (skip : Bool)
      → has_flag args.flags Flag.byte ≡ true
      → Allowed args 0 t
      → args.max_depth < 2 ^ 32
      → decode_process (methods engine) (start skip) ≡ done (none, final)
  unfolding decode_process process_from noted
  processed skip raw h small = rw (skips skip, process_from, runs raw h small) refl

  ranged :
      args.offset ≡ 0
      → args.length ≡ none
      → range_check (methods engine) args (length (write_tree t)) ≡ (none, length (write_tree t))
  unfolding range_check
  ranged from to = ground arith

  initial :
      (offset : ℕ)
      → offset ≡ 0
      → decode_init (methods engine) args (record whole { offset = offset }) s
        ≡ start (not (has_flag args.flags Flag.self_describe))
  unfolding decode_init zv_methods
  initial offset e = rw e refl

  ranged_run :
      has_flag args.flags Flag.byte ≡ true
      → Allowed args 0 t
      → args.max_depth < 2 ^ 32
      → args.offset ≡ 0
      → decode_range (methods engine) s args (write_tree t) (none, length (write_tree t))
        ≡ done (record { error = none; error_offset = 0; value = some (value_of t) })
  unfolding decode_range
  ranged_run raw h small from =
      ap (λ (c : ZvCtx). finish_all (methods engine) (decode_process (methods engine) c))
        (initial args.offset from)
      ∙ ap (finish_all (methods engine))
          (processed (not (has_flag args.flags Flag.self_describe)) raw h small)
      ∙ finished

  -- What the encoder's functions write for a tree is decoded to the tree's value: the flags ask for
  -- byte strings as PHP strings, the tree is inside the limits of the arguments, and the range is the
  -- whole text.
  pub decode-write_tree :
      has_flag args.flags Flag.byte ≡ true
      → Allowed args 0 t
      → args.max_depth < 2 ^ 32
      → args.offset ≡ 0
      → args.length ≡ none
      → decode (methods engine) s args (write_tree t)
        ≡ done (record { error = none; error_offset = 0; value = some (value_of t) })
  unfolding decode
  decode-write_tree raw h small from to =
      ap (decode_range (methods engine) s args (write_tree t)) (ranged from to)
      ∙ ranged_run raw h small from
