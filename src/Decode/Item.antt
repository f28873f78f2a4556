-- ===== src/Decode/Item.antt =====
-- src/decode_base.h: one data item. The head is read, and the method for its type is called.
use php_ext_cbor.Base.{
  ℕ, Bool, true, false, Option, none, some, List, leb, ltb, ◌==◌, take, drop, if◌then◌else◌,
}
use php_ext_cbor.Codec.{
  CborError, unsupported_size, truncated_data, malformed_data, break_underflow,
}
use php_ext_cbor.Di.{DiType, Payload, i32, i64, f16, str, list, unset, Decoded, is_double}
use php_ext_cbor.Di.Decoder.{get_type, read_int, read_str, read_list, read_float}
use php_ext_cbor.Decode.{Ctx, Event, Methods, StackItem, set_error, stack_pop_item}

-- The members of the union, read after the function that wrote them.
abbrev pub i32_of : Payload → ℕ
i32_of (i32 n) = n
i32_of _ = 0

abbrev pub i64_of : Payload → ℕ
i64_of (i64 n) = n
i64_of (list n is_indef) = n
i64_of _ = 0

abbrev pub f16_of : Payload → ℕ
f16_of (f16 n) = n
f16_of _ = 0

abbrev pub is_indef : Payload → Bool
is_indef (list n b) = b
is_indef _ = false

-- The bytes of a string; `none` is a `val` of NULL.
abbrev pub str_of : List ℕ → Payload → Option (List ℕ)
str_of bytes (str (some k) n) = some (take n (drop k bytes))
str_of bytes _ = none

-- What `dec_item` returns: the error, the structure `out`, and the context.
abbrev pub ItemResult : Type 0 → Type 0 → Type 0
ItemResult I U = Option CborError × Decoded × Ctx I U

module _ {I U V : Type 0} (m : Methods I U V) where
  -- SET_READ_ERROR: a failed read ends the item, and a good one goes on with `out`.
  abbrev pub on_read : Bool × Decoded → Ctx I U → (Decoded → ItemResult I U) → ItemResult I U
  on_read (true, out) ctx k = k out
  on_read (false, out) ctx k =
      (some (if out.req_len == 0 then malformed_data else truncated_data), out, ctx)

  -- DI_BREAK, with the item that was popped: the innermost container is closed.
  unfoldable pub close_item : Decoded → Option (StackItem I) × Ctx I U → ItemResult I U
  close_item out (none, ctx) = (none, out, set_error break_underflow ctx)
  close_item out (some item, ctx) = (none, out, m.proc_indef_break item ctx)

  unfoldable pub dec_break : Decoded → Ctx I U → ItemResult I U
  unfolding close_item
  dec_break out ctx = close_item out (stack_pop_item m.si_pop ctx)

  -- A string in one piece, or the start of one in chunks.
  abbrev pub string_event : (List ℕ → Event) → Event → Option (List ℕ) → Event
  string_event whole start (some s) = whole s
  string_event whole start none = start

  unfoldable pub dec_string : List ℕ → (List ℕ → Event) → Event → Decoded → Ctx I U → ItemResult I U
  dec_string bytes whole start out ctx =
      (none, out, m.proc (string_event whole start (str_of bytes out.v)) ctx)

  unfoldable pub dec_list : (ℕ → Event) → Event → Decoded → Ctx I U → ItemResult I U
  dec_list counted start out ctx =
      if is_indef out.v
      then (none, out, m.proc start ctx)
      else if ltb 0xffff_ffff (i64_of out.v)
      then (some unsupported_size, out, ctx)
      else (none, out, m.proc (counted (i64_of out.v)) ctx)

  -- The cases of the switch, for the type that was read from the initial byte.
  unfoldable pub dec_type : DiType → List ℕ → Decoded → Ctx I U → ItemResult I U
  unfolding dec_string dec_list dec_break
  dec_type DiType.uint bytes out ctx = on_read (read_int bytes out) ctx λ out. (
    none,
    out,
    m.proc (if is_double out then Event.uint64 (i64_of out.v) else Event.uint32 (i32_of out.v)) ctx,
  )
  dec_type DiType.nint bytes out ctx = on_read (read_int bytes out) ctx λ out. (
    none,
    out,
    m.proc (if is_double out then Event.nint64 (i64_of out.v) else Event.nint32 (i32_of out.v)) ctx,
  )
  dec_type DiType.bstr bytes out ctx =
      on_read (read_str bytes out) ctx
        λ out. dec_string bytes Event.byte_string Event.byte_string_start out ctx
  dec_type DiType.tstr bytes out ctx =
      on_read (read_str bytes out) ctx
        λ out. dec_string bytes Event.text_string Event.text_string_start out ctx
  dec_type DiType.array bytes out ctx =
      on_read (read_list bytes out) ctx
        λ out. dec_list Event.array_start Event.indef_array_start out ctx
  dec_type DiType.map bytes out ctx =
      on_read (read_list bytes out) ctx
        λ out. dec_list Event.map_start Event.indef_map_start out ctx
  dec_type DiType.tag bytes out ctx = on_read (read_int bytes out) ctx λ out. (
    none,
    out,
    m.proc (Event.tag_start (if is_double out then i64_of out.v else i32_of out.v)) ctx,
  )
  dec_type DiType.false_value bytes out ctx = (none, out, m.proc (Event.boolean false) ctx)
  dec_type DiType.true_value bytes out ctx = (none, out, m.proc (Event.boolean true) ctx)
  dec_type DiType.null bytes out ctx = (none, out, m.proc Event.null ctx)
  dec_type DiType.undef bytes out ctx = (none, out, m.proc Event.undefined ctx)
  dec_type DiType.simple0 bytes out ctx =
      on_read (read_int bytes out) ctx λ out. (none, out, m.proc (Event.simple (i32_of out.v)) ctx)
  dec_type DiType.simple8 bytes out ctx = on_read (read_int bytes out) ctx λ out.
      if leb (i32_of out.v) 31
      then (some malformed_data, out, ctx)
      else (none, out, m.proc (Event.simple (i32_of out.v)) ctx)
  dec_type DiType.float16 bytes out ctx =
      on_read (read_float bytes out) ctx
        λ out. (none, out, m.proc (Event.float16 (f16_of out.v)) ctx)
  dec_type DiType.float32 bytes out ctx =
      on_read (read_float bytes out) ctx
        λ out. (none, out, m.proc (Event.float32 (i32_of out.v)) ctx)
  dec_type DiType.float64 bytes out ctx =
      on_read (read_float bytes out) ctx
        λ out. (none, out, m.proc (Event.float64 (i64_of out.v)) ctx)
  dec_type DiType.break bytes out ctx = dec_break out ctx
  dec_type DiType.reserved bytes out ctx = (some malformed_data, record out { read_len = 0 }, ctx)

  unfoldable pub dec_item : List ℕ → Ctx I U → ItemResult I U
  dec_item bytes ctx =
      dec_type (get_type bytes) bytes (record { read_len = 1; req_len = 0; v = unset }) ctx
