-- ===== src/Decode/Process.antt =====
-- src/decode.c: the loop over the items of a fragment and the entry points.
use php_ext_cbor.Base.{
  ℕ, zero, suc, ◌+◌, ◌-◌, false, ◌&&◌, ◌||◌, not, Option, none, some, List, [], leb, ltb, ◌==◌,
  length, take, drop, get_or, if◌then◌else◌,
}
use php_ext_cbor.Codec.{CborError, truncated_data, extraneous_data, Fragment, DecodeArgs, has_flag}
use php_ext_cbor.Codec.Flag
use php_ext_cbor.Decode.{Ctx, Methods}
use php_ext_cbor.Decode.Item.{ItemResult, dec_item}

-- What a loop returns; `stuck` is no outcome of the program: the fuel ran out.
pub data Outcome (A : Type 0) : Type 0 where
  done : A → Outcome A
  stuck : Outcome A

-- The bytes from `ptr + offset` up to `length`.
abbrev pub rest_of : Fragment → List ℕ
rest_of mem = take (mem.length - mem.offset) (drop mem.offset mem.ptr)

abbrev pub advance : ℕ → Fragment → Fragment
advance n mem = record mem { offset = mem.offset + n }

module _ {I U V : Type 0} (m : Methods I U V) where
  -- One round of `do … while (ctx->stack_depth)`, with the decision to go on.
  pub data Round : Type 0 where
    ret : Option CborError → Ctx I U → Round
    again : Ctx I U → Round

  -- After an item with no error of its own: the error that its method set, or the loop's test.
  unfoldable pub go_on : Option CborError → Ctx I U → Round
  go_on (some e) ctx = Round.ret (some e) ctx
  go_on none ctx = if ctx.stack_depth == 0 then Round.ret none ctx else Round.again ctx

  unfoldable pub after_item : ItemResult I U → Round
  unfolding go_on
  after_item (some e, out, ctx) =
      Round.ret (some e) (record ctx { mem = advance out.read_len ctx.mem })
  after_item (none, out, ctx) =
      go_on ctx.cb_error (record ctx { mem = advance out.read_len ctx.mem })

  unfoldable pub round : Ctx I U → Round
  unfolding after_item
  round ctx =
      if leb ctx.mem.length ctx.mem.offset
      then Round.ret (some truncated_data) ctx
      else after_item (dec_item m (rest_of ctx.mem) ctx)

  unfoldable pub nested_loop : ℕ → Ctx I U → Outcome (Option CborError × Ctx I U)
  nested_loop zero ctx = stuck
  nested_loop (suc fuel) ctx = elim (round ctx) [
    | Round.ret e ctx' ↦ done (e, ctx')
    | Round.again ctx' ↦ nested_loop fuel ctx'
  ]

  -- Each round that goes on takes a byte at least.
  unfoldable pub decode_nested : Ctx I U → Outcome (Option CborError × Ctx I U)
  unfolding nested_loop
  decode_nested ctx =
      nested_loop (suc (ctx.mem.length - ctx.mem.offset)) (record ctx { cb_error = none })

  -- `ctx->args.error_args.offset = mem->base + mem->offset` where there is an error.
  abbrev pub note_offset : Option CborError → Ctx I U → Ctx I U
  note_offset none ctx = ctx
  note_offset (some e) ctx = record ctx { error_offset = ctx.mem.base + ctx.mem.offset }

  -- The tag 55799 at the front is stepped over, once, if the flag does not ask to keep it. The
  -- result is an error, or the context to decode with.
  unfoldable pub skip_self_describe : Ctx I U → Option CborError × Ctx I U
  skip_self_describe ctx =
      let mem = ctx.mem in
      let rem_len = mem.length - mem.offset in
      let at = λ (i : ℕ). get_or mem.ptr (mem.offset + i) 0 in
      if not ctx.skip_self_desc
      then (none, ctx)
      else if rem_len == 0
      then (some truncated_data, ctx)
      else if (at 0 == 0xd9) && ltb rem_len 3
      then (some truncated_data, ctx)
      else if (at 0 == 0xd9) && (at 1 == 0xd9) && (at 2 == 0xf7)
      then (none, record ctx { mem = advance 3 mem; skip_self_desc = false })
      else (none, record ctx { skip_self_desc = false })

  unfoldable pub noted : Outcome (Option CborError × Ctx I U) → Outcome (Option CborError × Ctx I U)
  noted stuck = stuck
  noted (done r) = done (r.0, note_offset r.0 r.1)

  -- `decode_nested`, unless the self-description was cut off.
  unfoldable pub process_from : Option CborError × Ctx I U → Outcome (Option CborError × Ctx I U)
  unfolding noted decode_nested
  process_from (some e, ctx) = done (some e, note_offset (some e) ctx)
  process_from (none, ctx) = noted (decode_nested ctx)

  unfoldable pub decode_process : Ctx I U → Outcome (Option CborError × Ctx I U)
  unfolding skip_self_describe process_from
  decode_process ctx = process_from (skip_self_describe ctx)

  -- `cbor_decode_init`.
  unfoldable pub decode_init : DecodeArgs → Fragment → U → Ctx I U
  decode_init args mem u = m.ctx_init (record {
    args = args;
    error_offset = 0;
    cb_error = none;
    skip_self_desc = not (has_flag args.flags Flag.self_describe);
    mem = mem;
    stack = [];
    stack_depth = 0;
    u = u;
  })

  -- The range check of `cbor_decode`: the error, and the end of the range.
  unfoldable pub range_check : DecodeArgs → ℕ → Option CborError × ℕ
  range_check args len =
      if ltb len args.offset then (some truncated_data, len) else elim args.length [
        | none ↦ (none, len)
        | some n ↦ (
          if ltb len n || ltb (len - n) args.offset then some truncated_data else none,
          args.offset + n,
        )
      ]

  -- The error with its offset, and the value if `dec_finish` stores one.
  pub record Decoding : Type 0 where
    pub error : Option CborError
    pub error_offset : ℕ
    pub value : Option V

  -- Data behind the item is an error.
  abbrev pub check_end : Option CborError × Ctx I U → Option CborError × Ctx I U
  check_end (some e, ctx) = (some e, ctx)
  check_end (none, ctx) =
      if ctx.mem.offset == ctx.mem.length
      then (none, ctx)
      else (some extraneous_data, note_offset (some extraneous_data) ctx)

  unfoldable pub finish : Option CborError × Ctx I U → Decoding
  finish (error, ctx) =
      let (error', value) = m.dec_finish error ctx in
      record { error = error'; error_offset = ctx.error_offset; value = value }

  unfoldable pub finish_all : Outcome (Option CborError × Ctx I U) → Outcome Decoding
  unfolding finish
  finish_all stuck = stuck
  finish_all (done r) = done (finish (check_end r))

  -- The run over the range, unless the range is refused.
  unfoldable pub decode_range : U → DecodeArgs → List ℕ → Option CborError × ℕ → Outcome Decoding
  unfolding decode_init decode_process finish_all
  decode_range u args bytes (some e, end) =
      done (record { error = some e; error_offset = length bytes; value = none })
  decode_range u args bytes (none, end) = finish_all (
      decode_process (
        decode_init args
          (record { length = end; offset = args.offset; limit = end; base = 0; ptr = bytes }) u))

  -- `u` is what the union holds before `ctx_init`.
  unfoldable pub decode : U → DecodeArgs → List ℕ → Outcome Decoding
  unfolding range_check decode_range
  decode u args bytes = decode_range u args bytes (range_check args (length bytes))
