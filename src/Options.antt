-- ===== src/Options.antt =====
-- src/options.c: the options of the encoder and the decoder, read into their arguments. The table of
-- options is a function from the names; a value is the PHP value behind references.
pub mod Ranges
pub mod Encoding
pub mod Implied
use php_ext_cbor.Base.{
  ℕ, zero, suc, ◌+◌, ◌-◌, ◌%◌, ◌^◌, Bool, true, false, ◌&&◌, ◌||◌, not, Option, none, some, List,
  [], ◌∷◌, ltb, leb, ◌==◌, if◌then◌else◌, get_or,
}
use php_ext_cbor.Base.Int.{ℤ, pos, negsuc}
use php_ext_cbor.Codec.{CborError, invalid_options, DecodeArgs, EdnArgs, has_flag}
use php_ext_cbor.Codec.Flag
use php_ext_cbor.Codec.Opt
use php_ext_cbor.Zv.{Zval, boolean, long, string, null}
use php_ext_cbor.Zv.Table.{same_text}

-- The names that are looked up.
pub data OptionName : Type 0 where
  max_depth max_size offset length string_ref shared_ref indent space byte_space byte_wrap :
      OptionName

abbrev pub Options : Type 0
Options = OptionName → Option Zval

-- An option function's result: the error, and the value that is stored, changed or not.
abbrev pub Stored : Type 0 → Type 0
Stored A = Option CborError × A

-- CHECK_ERROR, with what follows it.
unfoldable pub check_error : {A : Type 0} → Stored A → (A → Stored A) → Stored A
check_error (some e, a) more = (some e, a)
check_error (none, a) more = more a

unfoldable pub bool_option : Bool → Option Zval → Stored Bool
bool_option old none = (none, old)
bool_option old (some (boolean b)) = (none, b)
bool_option old (some v) = (some invalid_options, old)

-- The number of a name in the list, counted from `i`; the name "-" holds a place that nothing takes.
unfoldable pub other_value : ℕ → List (List ℕ) → List ℕ → Option ℕ
unfolding same_text
other_value i [] s = none
other_value i (name ∷ names) s =
    let rest = other_value (i + 1) names s in
    if get_or name 0 0 == b'-' then rest else if same_text s name then some i else rest

abbrev pub stored_or : ℕ → Option ℕ → Stored ℕ
stored_or old none = (some invalid_options, old)
stored_or old (some i) = (none, i)

unfoldable pub bool_n_option : ℕ → List (List ℕ) → Option Zval → Stored ℕ
unfolding other_value
bool_n_option old names none = (none, old)
bool_n_option old names (some (boolean b)) = (none, if b then Opt.opt_true else 0)
bool_n_option old names (some (string s)) = stored_or old (other_value 2 names s)
bool_n_option old names (some v) = (some invalid_options, old)

-- `long_option` with a lower bound of 0: the value is a natural number.
unfoldable pub long_option : ℕ → ℕ → Option Zval → Stored ℕ
long_option old max none = (none, old)
long_option old max (some (long (pos n))) =
    if ltb max n then (some invalid_options, old) else (none, n)
long_option old max (some v) = (some invalid_options, old)

-- The option `length`: null leaves it as it is.
unfoldable pub nullable_option : Option ℕ → ℕ → Option Zval → Stored (Option ℕ)
nullable_option old max none = (none, old)
nullable_option old max (some null) = (none, old)
nullable_option old max (some (long (pos n))) =
    if ltb max n then (some invalid_options, old) else (none, some n)
nullable_option old max (some v) = (some invalid_options, old)

-- The number is cut to 32 bits and stored before it is compared with the bounds.
unfoldable pub uint32_option : ℕ → ℕ → ℕ → Option Zval → Stored ℕ
uint32_option old min max none = (none, old)
uint32_option old min max (some (long (pos n))) =
    let v = n % 2 ^ 32 in (if ltb v min || ltb max v then some invalid_options else none, v)
uint32_option old min max (some v) = (some invalid_options, old)

-- "shareable", "shareable_only" and "unsafe_ref".
abbrev pub shared_names : List (List ℕ)
shared_names =
    (b's' ∷ b'h' ∷ b'a' ∷ b'r' ∷ b'e' ∷ b'a' ∷ b'b' ∷ b'l' ∷ b'e' ∷ [])
    ∷ (b's' ∷ b'h' ∷ b'a' ∷ b'r' ∷ b'e' ∷ b'a' ∷ b'b' ∷ b'l' ∷ b'e' ∷ b'_' ∷ b'o' ∷ b'n' ∷ b'l'
        ∷ b'y' ∷ [])
    ∷ (b'u' ∷ b'n' ∷ b's' ∷ b'a' ∷ b'f' ∷ b'e' ∷ b'_' ∷ b'r' ∷ b'e' ∷ b'f' ∷ [])
    ∷ []

-- The part for diagnostic notation.
unfoldable pub indent_option : EdnArgs → Option Zval → Stored EdnArgs
indent_option edn none = (none, edn)
indent_option edn (some (boolean false)) = (none, record edn { indent = 0; indent_char = 0 })
indent_option edn (some (long (pos n))) =
    if ltb 16 n
    then (some invalid_options, edn)
    else (none, record edn { indent = n; indent_char = b' ' })
indent_option edn (some (string (c ∷ []))) =
    if c == 9
    then (none, record edn { indent = 1; indent_char = 9 })
    else (some invalid_options, edn)
indent_option edn (some v) = (some invalid_options, edn)

unfoldable pub byte_space_option : EdnArgs → Option Zval → Stored EdnArgs
byte_space_option edn none = (none, edn)
byte_space_option edn (some (long (pos n))) =
    if ltb 63 n then (some invalid_options, edn) else (none, record edn { byte_space = n })
byte_space_option edn (some v) = (some invalid_options, edn)

unfoldable pub byte_wrap_option : EdnArgs → Option Zval → Stored EdnArgs
byte_wrap_option edn none = (none, edn)
byte_wrap_option edn (some (boolean false)) = (none, record edn { byte_wrap = 0 })
byte_wrap_option edn (some (long (pos n))) =
    if (n == 0) || ltb 1024 n
    then (some invalid_options, edn)
    else (none, record edn { byte_wrap = n })
byte_wrap_option edn (some v) = (some invalid_options, edn)

abbrev pub space_option : EdnArgs → Option Zval → Stored EdnArgs
space_option edn v = let (e, b) = bool_option edn.space v in (e, record edn { space = b })

unfoldable pub edn_options : EdnArgs → Options → Stored EdnArgs
unfolding check_error indent_option byte_space_option byte_wrap_option bool_option
edn_options edn options = check_error (indent_option edn (options OptionName.indent)) λ edn.
    check_error (space_option edn (options OptionName.space)) λ edn.
      check_error (byte_space_option edn (options OptionName.byte_space))
        λ edn. byte_wrap_option edn (options OptionName.byte_wrap)

-- `cbor_init_decode_options`: CBOR_BYTE and CBOR_KEY_BYTE.
abbrev pub init_decode_options : DecodeArgs
init_decode_options = record {
  flags = 2 ^ Flag.byte + 2 ^ Flag.key_byte;
  max_depth = 64;
  max_size = 65536;
  offset = 0;
  length = none;
  string_ref = true;
  shared_ref = 0;
  edn = record { indent = 0; indent_char = 0; space = true; byte_space = 0; byte_wrap = 0 };
}

-- One option of the arguments: it is read, and written back.
abbrev pub with_max_depth : Options → DecodeArgs → Stored DecodeArgs
with_max_depth options a =
    let (e, v) = uint32_option a.max_depth 0 10000 (options OptionName.max_depth) in
    (e, record a { max_depth = v })

abbrev pub with_max_size : Options → DecodeArgs → Stored DecodeArgs
with_max_size options a =
    let (e, v) = uint32_option a.max_size 0 0xffff_ffff (options OptionName.max_size) in
    (e, record a { max_size = v })

abbrev pub with_offset : Options → DecodeArgs → Stored DecodeArgs
with_offset options a =
    let (e, v) = long_option a.offset (2 ^ 63 - 1) (options OptionName.offset) in
    (e, record a { offset = v })

abbrev pub with_length : Options → DecodeArgs → Stored DecodeArgs
with_length options a =
    let (e, v) = nullable_option a.length (2 ^ 63 - 1) (options OptionName.length) in
    (e, record a { length = v })

abbrev pub with_string_ref : Options → DecodeArgs → Stored DecodeArgs
with_string_ref options a =
    let (e, v) = bool_option a.string_ref (options OptionName.string_ref) in
    (e, record a { string_ref = v })

abbrev pub with_shared_ref : Options → DecodeArgs → Stored DecodeArgs
with_shared_ref options a =
    let (e, v) = bool_n_option a.shared_ref shared_names (options OptionName.shared_ref) in
    (e, record a { shared_ref = v })

abbrev pub with_edn : Options → DecodeArgs → Stored DecodeArgs
with_edn options a = let (e, edn) = edn_options a.edn options in (e, record a { edn = edn })

module _ (ht_max_size : ℕ) where
  -- HT_MAX_SIZE, the greatest size of a table, is PHP's.
  abbrev pub clamp_size : DecodeArgs → DecodeArgs
  clamp_size a = if ltb ht_max_size a.max_size then record a { max_size = ht_max_size } else a

  -- `cbor_set_decode_options`, with a table of options.
  unfoldable pub set_decode_options : DecodeArgs → Options → Stored DecodeArgs
  unfolding check_error uint32_option long_option nullable_option bool_option bool_n_option
      edn_options
  set_decode_options args options = check_error (with_max_depth options args) λ a.
      check_error (with_max_size options a) λ a.
        check_error (with_offset options (clamp_size a)) λ a.
          check_error (with_length options a) λ a. check_error (with_string_ref options a) λ a.
            check_error (with_shared_ref options a)
              λ a. if has_flag a.flags Flag.edn then with_edn options a else (none, a)
