-- ===== src/Zv.antt =====
-- src/decode_zv.h and src/xzval.h: the decoder to PHP values, its values and its state.
-- A PHP array is its entries in order. Objects and references are handles into a heap, since shared
-- values and `stdClass` objects are written after other values have come to hold them; counting
-- references and freeing are not modelled.
pub mod Table
pub mod Tags
pub mod Share
pub mod Append
pub mod Proc
pub mod Frame
pub mod Sharing
pub mod Strings
pub mod Lookup
pub mod Trees
pub mod Opened
pub mod Loop
pub mod Parsed
pub mod RoundTrip
pub mod Keeps
pub mod Depth
use php_ext_cbor.Base.{ℕ, Bool, List, Option}
use php_ext_cbor.Base.Int.{ℤ}
use php_ext_cbor.Decode.{Ctx, StackItem}

-- A key of a PHP array or an object: an integer as the 64-bit pattern that the table has, or a name.
pub data Key : Type 0 where
  index : ℕ → Key
  name : List ℕ → Key

-- `zval` and `xzval`: `xuint` and `xnint` are IS_X_UINT and IS_X_NINT, integers out of `zend_long`.
-- A `double` is its bit pattern. The object of `Cbor\Undefined` is the only one of its class.
mutual
  pub data Zval : Type 0 where
    undef null : Zval
    boolean : Bool → Zval
    long : ℤ → Zval
    double : ℕ → Zval
    string : List ℕ → Zval
    array : Entries → Zval
    undefined : Zval
    object : ℕ → Zval
    reference : ℕ → Zval
    xuint xnint : ℕ → Zval

  pub data Entries : Type 0 where
    end : Entries
    entry : Key → Zval → Entries → Entries

-- The objects that the decoder creates, by class.
pub data Object : Type 0 where
  byte text : List ℕ → Object
  float16 float32 : ℕ → Object
  tag : ℕ → Zval → Object
  shareable : Zval → Object
  std_class : Entries → Object

-- `tag_handler_index`.
pub data Thi : Type 0 where
  none str_ref_ns str_ref shareable shared_ref : Thi

-- The union `si_value_`. The count of entries of a map of indefinite length, which the code keeps in
-- the spare bits of `dest`, is the last field of `map`; `shareable` is the state of a handled tag 28.
pub data SiValue : Type 0 where
  unset : SiValue
  value : Zval → SiValue
  str : List ℕ → SiValue
  map : Zval → Zval → ℕ → SiValue
  tag_id : ℕ → SiValue
  tag_handled : ℕ → Thi → SiValue
  tag_shareable : ℕ → Thi → Zval → ℕ → SiValue

-- What `stack_item_zv` adds to an item; `thi_child` has two places.
pub record ZvItem : Type 0 where
  pub thi_data : Thi
  pub thi_child0 : Thi
  pub thi_child1 : Thi
  pub v : SiValue

-- The member `zv` of the context's union, with the heap: `srns` is the stack of string tables, `refs`
-- the table of shared values.
pub record ZvState : Type 0 where
  pub root : Zval
  pub srns : List (List Zval)
  pub refs : List Zval
  pub objects : List Object
  pub cells : List Zval

abbrev pub ZvCtx : Type 0
ZvCtx = Ctx ZvItem ZvState

abbrev pub ZvStackItem : Type 0
ZvStackItem = StackItem ZvItem

-- What the code uses of the PHP engine and of C's conversions: whether a string key is the canonical
-- decimal form of an integer (ZEND_HANDLE_NUMERIC_STR), with that integer as a table's index, and the
-- bit pattern of the `double` that a half-precision and a single-precision float stand for.
pub record Engine : Type 0 where
  pub numeric_key : List ℕ → Option ℕ
  pub from_fp16 : ℕ → ℕ
  pub from_fp32 : ℕ → ℕ
