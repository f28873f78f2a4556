-- ===== src/Options/Encoding.antt =====
-- src/options.c: the options and the flags of the encoder.
use php_ext_cbor.Base.{
  ℕ, ◌+◌, ◌^◌, Bool, true, ◌&&◌, ◌||◌, Option, none, some, List, [], ◌∷◌, ltb, if◌then◌else◌,
}
use php_ext_cbor.Codec.{both_string_flag, both_key_string_flag, contextual_cde, has_flag}
use php_ext_cbor.Codec.Flag
use php_ext_cbor.Options.{
  OptionName, Options, Stored, check_error, bool_option, bool_n_option, uint32_option,
}
use php_ext_cbor.Zv.{Zval}

-- `cbor_encode_args`, less the error arguments.
pub record EncodeArgs : Type 0 where
  pub e_flags : ℕ
  pub u_flags : ℕ
  pub max_depth : ℕ
  pub string_ref : ℕ
  pub shared_ref : ℕ
  pub datetime : Bool
  pub bignum : Bool
  pub decimal : Bool
  pub uri : Bool

-- The names of the options that only the encoder has.
pub data ClassName : Type 0 where
  datetime bignum decimal uri : ClassName

abbrev pub ClassOptions : Type 0
ClassOptions = ClassName → Option Zval

-- One option: it is read, and written back.
abbrev with_datetime : ClassOptions → EncodeArgs → Stored EncodeArgs
with_datetime options a =
    let (e, b) = bool_option a.datetime (options ClassName.datetime) in
    (e, record a { datetime = b })

abbrev with_bignum : ClassOptions → EncodeArgs → Stored EncodeArgs
with_bignum options a =
    let (e, b) = bool_option a.bignum (options ClassName.bignum) in (e, record a { bignum = b })

abbrev with_decimal : ClassOptions → EncodeArgs → Stored EncodeArgs
with_decimal options a =
    let (e, b) = bool_option a.decimal (options ClassName.decimal) in (e, record a { decimal = b })

abbrev with_uri : ClassOptions → EncodeArgs → Stored EncodeArgs
with_uri options a =
    let (e, b) = bool_option a.uri (options ClassName.uri) in (e, record a { uri = b })

-- `cbor_override_encode_options`.
unfoldable pub override_encode_options : EncodeArgs → ClassOptions → Stored EncodeArgs
unfolding check_error bool_option
override_encode_options args options = check_error (with_datetime options args) λ a.
    check_error (with_bignum options a)
      λ a. check_error (with_decimal options a) λ a. with_uri options a

-- "explicit", and for shared references two places and "unsafe_ref".
abbrev pub string_names : List (List ℕ)
string_names = (b'e' ∷ b'x' ∷ b'p' ∷ b'l' ∷ b'i' ∷ b'c' ∷ b'i' ∷ b't' ∷ []) ∷ []

abbrev pub encode_shared_names : List (List ℕ)
encode_shared_names =
    (b'-' ∷ [])
    ∷ (b'-' ∷ [])
    ∷ (b'u' ∷ b'n' ∷ b's' ∷ b'a' ∷ b'f' ∷ b'e' ∷ b'_' ∷ b'r' ∷ b'e' ∷ b'f' ∷ [])
    ∷ []

-- The arguments before the options are read.
abbrev pub encode_defaults : EncodeArgs → EncodeArgs
encode_defaults args = record args {
  max_depth = 64;
  string_ref = 0;
  shared_ref = 0;
  datetime = true;
  bignum = true;
  decimal = true;
  uri = true;
}

abbrev encode_max_depth : Options → EncodeArgs → Stored EncodeArgs
encode_max_depth options a =
    let (e, v) = uint32_option a.max_depth 0 10000 (options OptionName.max_depth) in
    (e, record a { max_depth = v })

abbrev encode_string_ref : Options → EncodeArgs → Stored EncodeArgs
encode_string_ref options a =
    let (e, v) = bool_n_option a.string_ref string_names (options OptionName.string_ref) in
    (e, record a { string_ref = v })

abbrev encode_shared_ref : Options → EncodeArgs → Stored EncodeArgs
encode_shared_ref options a =
    let (e, v) = bool_n_option a.shared_ref encode_shared_names (options OptionName.shared_ref) in
    (e, record a { shared_ref = v })

-- `cbor_set_encode_options`; `none` is a table that is not given.
unfoldable pub set_encode_options : EncodeArgs → Option (Options × ClassOptions) → Stored EncodeArgs
unfolding check_error uint32_option bool_n_option override_encode_options
set_encode_options args none = (none, encode_defaults args)
set_encode_options args (some (options, class_options)) =
    check_error (encode_max_depth options (encode_defaults args)) λ a.
      check_error (encode_string_ref options a)
        λ a. check_error (encode_shared_ref options a) λ a. override_encode_options a class_options

-- `flags | (1 << k)`.
unfoldable pub with_flag : ℕ → ℕ → ℕ
with_flag k flags = if has_flag flags k then flags else flags + 2 ^ k

-- `cbor_check_encode_params`.
unfoldable pub check_encode_params : EncodeArgs → Stored EncodeArgs
unfolding with_flag
check_encode_params args =
    let flags = args.u_flags in
    if has_flag flags Flag.byte && has_flag flags Flag.text
    then (some both_string_flag, args)
    else if has_flag flags Flag.key_byte && has_flag flags Flag.key_text
    then (some both_key_string_flag, args)
    else if has_flag flags Flag.cde
    then if ltb 0 args.string_ref || ltb 0 args.shared_ref then (some contextual_cde, args) else (
      none,
      record args {
        e_flags =
            with_flag Flag.map_no_dup_key (with_flag Flag.float32 (with_flag Flag.float16 flags));
      },
    )
    else (none, record args { e_flags = flags })
