-- ===== src/Decode.antt =====
-- src/decode.c: the decoder's context, its stack of open containers, and the table of methods that
-- the two kinds of decoder fill (`decode_vt` and the METHOD functions of src/decode_base.h).
-- Memory is not modelled: the pool of stack items and the functions that only free storage.
pub mod Item
pub mod Reads
pub mod Process
pub mod Frame
pub mod Total
pub mod Tokens
pub mod Written
pub mod Rounds
use php_ext_cbor.Base.{
  ℕ, ◌+◌, ◌-◌, ◌%◌, ◌^◌, Bool, true, false, Option, none, some, List, [], ◌∷◌, leb, if◌then◌else◌,
}
use php_ext_cbor.Codec.{CborError, depth, DecodeArgs, Fragment}

-- `si_type_code`.
pub data SiType : Type 0 where
  byte text array map tag tag_handled : SiType

-- `si_type & SI_TYPE_STRING_MASK`.
abbrev pub is_string : SiType → Bool
is_string byte = true
is_string text = true
is_string _ = false

-- A stack item: the common part, and the part of the kind of decoder.
pub record StackItem (I : Type 0) : Type 0 where
  pub si_type : SiType
  pub count : ℕ
  pub ext : I

-- The context. `stack_top` and the items linked to it are the list `stack`; `error_offset` is
-- `args.error_args.offset`; `u` is the state of the kind of decoder.
pub record Ctx (I U : Type 0) : Type 0 where
  pub args : DecodeArgs
  pub error_offset : ℕ
  pub cb_error : Option CborError
  pub skip_self_desc : Bool
  pub mem : Fragment
  pub stack : List (StackItem I)
  pub stack_depth : ℕ
  pub u : U

-- The call of a METHOD other than `proc_indef_break`, with its arguments.
pub data Event : Type 0 where
  uint32 uint64 nint32 nint64 : ℕ → Event
  byte_string text_string : List ℕ → Event
  byte_string_start text_string_start : Event
  array_start map_start : ℕ → Event
  indef_array_start indef_map_start : Event
  tag_start : ℕ → Event
  boolean : Bool → Event
  null undefined : Event
  simple float16 float32 float64 : ℕ → Event

-- `decode_vt` and METHOD. `si_push` also changes the parent, which is the top of the stack.
pub record Methods (I U V : Type 0) : Type 0 where
  pub proc : Event → Ctx I U → Ctx I U
  pub proc_indef_break : StackItem I → Ctx I U → Ctx I U
  pub si_push : StackItem I → Ctx I U → Ctx I U × StackItem I
  pub si_pop : StackItem I → Ctx I U → Ctx I U
  pub ctx_init : Ctx I U → Ctx I U
  pub dec_finish : Option CborError → Ctx I U → Option CborError × Option V

module _ {I U : Type 0} where
  -- _CB_SET_ERROR: the first error stays.
  unfoldable pub set_error : CborError → Ctx I U → Ctx I U
  set_error error ctx = record ctx {
    cb_error = elim ctx.cb_error [ none ↦ some error | some e ↦ some e ];
  }

  -- The item that is popped, if there is one, and the context.
  unfoldable pub pop_from :
      (StackItem I → Ctx I U → Ctx I U)
      → List (StackItem I)
      → Ctx I U
      → Option (StackItem I) × Ctx I U
  pop_from si_pop [] ctx = (none, ctx)
  pop_from si_pop (item ∷ rest) ctx =
      (some item, si_pop item (record ctx { stack = rest; stack_depth = ctx.stack_depth - 1 }))

  unfoldable pub stack_pop_item :
      (StackItem I → Ctx I U → Ctx I U) → Ctx I U → Option (StackItem I) × Ctx I U
  unfolding pop_from
  stack_pop_item si_pop ctx = pop_from si_pop ctx.stack ctx

  unfoldable pub stack_push_item :
      (StackItem I → Ctx I U → Ctx I U × StackItem I) → StackItem I → Ctx I U → Ctx I U
  unfolding set_error
  stack_push_item si_push item ctx =
      if leb ctx.args.max_depth ctx.stack_depth
      then set_error depth ctx
      else let (ctx', item') = si_push item ctx in
        record ctx' { stack_depth = (ctx'.stack_depth + 1) % 2 ^ 32; stack = item' ∷ ctx'.stack }
