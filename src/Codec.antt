-- ===== src/Codec.antt =====
-- src/codec.h, src/flags.h and src/tags.h: error codes, flags, tags and the arguments of a decoder.
-- The platform has 64-bit `zend_long` and `size_t`.
pub mod Flag
pub mod Tag
pub mod Opt
pub mod StringRef
use php_ext_cbor.Base.{
  leb, List, ℕ, ◌+◌, ◌*◌, ◌/◌, ◌%◌, ◌^◌, ◌==◌, Bool, Option, none, some, if◌then◌else◌,
}

-- `cbor_error` other than 0, with the description that `E_DESC` packs into it as a constructor of
-- its own, named after the description. No error is `none` of `Option CborError`.
pub data CborError : Type 0 where
  invalid_flags both_string_flag both_key_string_flag no_string_flag no_key_string_flag
        contextual_cde :
      CborError
  clear_cde : CborError
  invalid_options : CborError
  depth : CborError
  recursion : CborError
  syntax break_underflow break_unexpected inconsistent_string_type indef_string_chunk_type :
      CborError
  utf8 : CborError
  unsupported_type simple_type : CborError
  unsupported_value int_range : CborError
  unsupported_size : CborError
  unsupported_key_type int_key null_key bool_key float_key byte_key : CborError
  text_key array_key object_key undef_key tag_key : CborError
  unsupported_key_value reserved_prop_name : CborError
  unsupported_key_size : CborError
  duplicate_key : CborError
  truncated_data : CborError
  malformed_data : CborError
  extraneous_data : CborError
  tag_syntax str_ref_no_ns share_nested : CborError
  tag_type str_ref_not_int share_incompatible share_not_int : CborError
  tag_value str_ref_range share_self share_range : CborError
  internal : CborError
  exception : CborError

-- The integer that stands for the error: the code, and the description in the next byte.
unfoldable pub to_int : CborError → ℕ
to_int invalid_flags = 1
to_int both_string_flag = 1 + 1 * 2 ^ 8
to_int both_key_string_flag = 1 + 2 * 2 ^ 8
to_int no_string_flag = 1 + 3 * 2 ^ 8
to_int no_key_string_flag = 1 + 4 * 2 ^ 8
to_int contextual_cde = 1 + 5 * 2 ^ 8
to_int clear_cde = 1 + 6 * 2 ^ 8
to_int invalid_options = 2
to_int depth = 3
to_int recursion = 4
to_int syntax = 5
to_int break_underflow = 5 + 1 * 2 ^ 8
to_int break_unexpected = 5 + 2 * 2 ^ 8
to_int inconsistent_string_type = 5 + 3 * 2 ^ 8
to_int indef_string_chunk_type = 5 + 4 * 2 ^ 8
to_int utf8 = 6
to_int unsupported_type = 17
to_int simple_type = 17 + 1 * 2 ^ 8
to_int unsupported_value = 18
to_int int_range = 18 + 1 * 2 ^ 8
to_int unsupported_size = 19
to_int unsupported_key_type = 25
to_int int_key = 25 + 1 * 2 ^ 8
to_int null_key = 25 + 2 * 2 ^ 8
to_int bool_key = 25 + 3 * 2 ^ 8
to_int float_key = 25 + 4 * 2 ^ 8
to_int byte_key = 25 + 5 * 2 ^ 8
to_int text_key = 25 + 6 * 2 ^ 8
to_int array_key = 25 + 7 * 2 ^ 8
to_int object_key = 25 + 8 * 2 ^ 8
to_int undef_key = 25 + 9 * 2 ^ 8
to_int tag_key = 25 + 10 * 2 ^ 8
to_int unsupported_key_value = 26
to_int reserved_prop_name = 26 + 1 * 2 ^ 8
to_int unsupported_key_size = 27
to_int duplicate_key = 28
to_int truncated_data = 33
to_int malformed_data = 34
to_int extraneous_data = 35
to_int tag_syntax = 41
to_int str_ref_no_ns = 41 + 1 * 2 ^ 8
to_int share_nested = 41 + 2 * 2 ^ 8
to_int tag_type = 42
to_int str_ref_not_int = 42 + 1 * 2 ^ 8
to_int share_incompatible = 42 + 2 * 2 ^ 8
to_int share_not_int = 42 + 3 * 2 ^ 8
to_int tag_value = 43
to_int str_ref_range = 43 + 1 * 2 ^ 8
to_int share_self = 43 + 2 * 2 ^ 8
to_int share_range = 43 + 3 * 2 ^ 8
to_int internal = 241
to_int exception = 255

-- `error & CBOR_ERROR_CODE_MASK`.
unfoldable pub error_code : CborError → ℕ
unfolding to_int
error_code error = to_int error % 2 ^ 8

-- `flags & (1 << k)`.
abbrev pub has_flag : ℕ → ℕ → Bool
has_flag flags k = flags / 2 ^ k % 2 == 1

-- The part of the arguments that formats diagnostic notation; a character is its code, 0 for none.
pub record EdnArgs : Type 0 where
  pub indent : ℕ
  pub indent_char : ℕ
  pub space : Bool
  pub byte_space : ℕ
  pub byte_wrap : ℕ

-- `cbor_decode_args`, less the error arguments. `length` is `none` for LEN_DEFAULT.
pub record DecodeArgs : Type 0 where
  pub flags : ℕ
  pub max_depth : ℕ
  pub max_size : ℕ
  pub offset : ℕ
  pub length : Option ℕ
  pub string_ref : Bool
  pub shared_ref : ℕ
  pub edn : EdnArgs

-- `cbor_fragment`: the text at `ptr` and the positions in it.
pub record Fragment : Type 0 where
  pub length : ℕ
  pub offset : ℕ
  pub limit : ℕ
  pub base : ℕ
  pub ptr : List ℕ

-- The length from which on a string is given an index in a string reference namespace.
unfoldable pub is_len_string_ref : ℕ → ℕ → Bool
is_len_string_ref str_len next_index =
    leb
      (if leb next_index 23
        then 3
        else if leb next_index 0xff
        then 4
        else if leb next_index 0xffff
        then 5
        else if leb next_index 0xffff_ffff
        then 7
        else 11)
      str_len
