-- ===== src/Enc.antt =====
-- src/encode.c: the encoder of PHP values: its values, its state and its results.
-- The values are those of the decoder, with the heap that the encoder reads. An array has an identity
-- of its own only as the contents of a reference. User code that the encoder calls changes nothing in
-- the heap, and counts of references are those at the start.
pub mod Scalars
pub mod Keys
pub mod Strings
pub mod Hash
pub mod Shared
pub mod Traverse
pub mod Params
pub mod BigDecimal
pub mod DecimalObject
pub mod Encode
pub mod RoundTrip
pub mod Balance
use php_ext_cbor.Base.{ℕ, Bool, List, [], ◌∷◌, Option, none, some, ◌==◌, false, if◌then◌else◌, true}
use php_ext_cbor.Base.Int.{ℤ}
use php_ext_cbor.Codec.{CborError}
use php_ext_cbor.Options.Encoding.{EncodeArgs, ClassOptions}
use php_ext_cbor.Floats.Half.{Format}
use php_ext_cbor.Zv.{Zval, Entries}

-- The outcome of an encoding function; `no_fuel` is no result of the code.
pub data Status : Type 0 where
  good : Status
  failed : CborError → Status
  no_fuel : Status

-- A function that may ask its caller to write the value itself: CBOR_STATUS_VALUE_FOLLOWS.
pub data Follow : Type 0 where
  ends : Status → Follow
  value_follows : Follow

-- A call of a PHP function: it cannot be made, it raises an exception, or it returns.
pub data Call (A : Type 0) : Type 0 where
  not_called : Call A
  raises : Call A
  returns : A → Call A

-- What an iterator gives at one position: it has ended, it raises an exception before the key or where
-- the key is read, it gives a key and raises where the value is read, or it gives a key and a value.
pub data Step : Type 0 where
  done : Step
  raised : Step
  key_raised : Step
  value_raised : Zval → Step
  item : Zval → Zval → Step

-- The steps by the number of calls of `move_forward`; an iterator need not end.
abbrev pub Iterator : Type 0
Iterator = ℕ → Step

-- The properties of `Cbor\EncodeParams`: the value, and what is looked up in `params`.
pub record ParamsOf : Type 0 where
  pub value : Zval
  pub flags_clear : Option Zval
  pub flags : Option Zval
  pub class_options : ClassOptions

-- What the methods of an object of the decimal extension return; `none` is a call that cannot be made.
pub record DecimalCalls : Type 0 where
  pub is_nan : Option Bool
  pub is_inf : Option Bool
  pub is_negative : Option Bool
  pub to_string : Option (List ℕ)

-- The objects by class; the object of `Cbor\Undefined` is a value. `countable` of a traversable is
-- the call of `count`, if the object is countable. `date` has the text of `format`, with `none` for a
-- call that cannot be made; one that raises is left out. `gmp` has its number,
-- `uri` the cast to a string, with `none` for a value that is no string.
pub data Instance : Type 0 where
  byte text : List ℕ → Instance
  float16 float32 : ℕ → Instance
  tag : ℤ → Zval → Instance
  shareable : Zval → Instance
  std_class : Entries → Instance
  encode_params : ParamsOf → Instance
  serializable : Call Zval → Instance
  traversable : Option (Call ℤ) → Iterator → Instance
  date : Option (List ℕ) → Instance
  gmp : ℤ → Instance
  decimal : DecimalCalls → Instance
  uri : Call (Option (List ℕ)) → Instance
  unknown : Instance

-- An object and the count of the references to it.
pub record Held : Type 0 where
  pub refcount : ℕ
  pub instance_of : Instance

pub record Heap : Type 0 where
  pub objects : List Held
  pub cells : List Zval

-- The address of an object or of a reference.
pub data Place : Type 0 where
  object cell : ℕ → Place

unfoldable pub same_place : Place → Place → Bool
same_place (Place.object i) (Place.object j) = i == j
same_place (Place.cell i) (Place.cell j) = i == j
same_place _ _ = false

unfoldable pub place_in : Place → List Place → Bool
unfolding same_place
place_in p [] = false
place_in p (q ∷ qs) = if same_place q p then true else place_in p qs

-- The mark of a value is cleared.
unfoldable pub without : Place → List Place → List Place
unfolding same_place
without p [] = []
without p (q ∷ qs) = let rest = without p qs in if same_place q p then rest else q ∷ rest

-- `srns_item`: the next index, and the tables of byte strings and of text with the strings' indices.
pub record Srns : Type 0 where
  pub next_index : ℕ
  pub byte_table : List (List ℕ × ℕ)
  pub text_table : List (List ℕ × ℕ)

-- `enc_context`: `refs` has the places of the shared values in the order of their indices,
-- `protected` the values that Z_PROTECT_RECURSION_P marked.
pub record EncCtx : Type 0 where
  pub args : EncodeArgs
  pub cur_depth : ℕ
  pub in_enc_params : ℕ
  pub buf : List ℕ
  pub srns : Option Srns
  pub refs : List Place
  pub protected : List Place

-- A bucket of the table that is sorted for CBOR_CDE: an encoded key and its value.
abbrev pub Bucket : Type 0
Bucket = List ℕ × Zval

-- What the code uses of the PHP engine: the stable sort of a table by a comparison, the bytes of a
-- GMP number that is not negative, the constant NAN, the greatest size of a table (less than 2^31),
-- the instruction of
-- the processor for half-precision floats, if there is one, and the conversion of a double to single
-- precision.
-- `rounds` is no part of it: the fuel of the loop over an iterator.
pub record EncEngine : Type 0 where
  pub hash_sort : (Bucket → Bucket → Bool) → List Bucket → List Bucket
  pub gmp_export : ℕ → List ℕ
  pub count_max : ℕ
  pub rounds : ℕ
  pub nan : ℕ
  pub f16c : Option (Format → ℕ → ℕ)
  pub to_fp32 : ℕ → ℕ

-- The steps of an encoding function: ENC_CHECK and the early returns.
infixl 5 ◌>>=◌
abbrev pub ◌>>=◌ : EncCtx × Status → (EncCtx → EncCtx × Status) → EncCtx × Status
(ctx, good) >>= f = f ctx
(ctx, failed e) >>= f = (ctx, failed e)
(ctx, no_fuel) >>= f = (ctx, no_fuel)

-- A function that writes to the buffer and cannot fail.
abbrev pub wrote : EncCtx → List ℕ → EncCtx × Status
wrote ctx buf = (record ctx { buf = buf }, good)
