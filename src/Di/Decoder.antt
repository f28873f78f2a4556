-- ===== src/Di/Decoder.antt =====
-- src/di_decoder.c: reading the head of a bytes item. The pointer `bytes` with `len` is a list and its
-- length; `size_t` has 64 bits. A function returns whether it succeeded and the structure `out`.
use php_ext_cbor.Base.{
  ℕ, ◌+◌, ◌-◌, ◌*◌, ◌%◌, ◌^◌, Bool, true, false, ◌||◌, Option, some, none, List, leb, ltb, ◌==◌,
  if◌then◌else◌, length, get_or, bit_and,
}
use php_ext_cbor.Di.{
  DiType, uint, nint, bstr, tstr, array, map, tag, false_value, true_value, null, undef, simple0,
  simple8, float16, float32, float64, break, reserved, major_bits, info_int0_max, info_int8,
  info_int16, info_int32, info_int64, info_indef, Payload, i32, i64, f16, str, list, Decoded,
}

abbrev pub byte_at : List ℕ → ℕ → ℕ
byte_at bytes i = get_or bytes i 0

-- DI_GET_INFO.
abbrev pub get_info : ℕ → ℕ
get_info ini_byte = bit_and ini_byte 0x1f

-- DI_READ_1, DI_READ_2, DI_READ_4, DI_READ_8: the shifted bytes do not overlap, so `|` adds.
abbrev pub read_1 : List ℕ → ℕ
read_1 bytes = byte_at bytes 1

abbrev pub read_2 : List ℕ → ℕ
read_2 bytes = byte_at bytes 1 * 2 ^ 8 + byte_at bytes 2

abbrev pub read_4 : List ℕ → ℕ
read_4 bytes =
    byte_at bytes 1 * 2 ^ 24 + byte_at bytes 2 * 2 ^ 16 + byte_at bytes 3 * 2 ^ 8 + byte_at bytes 4

abbrev pub read_8 : List ℕ → ℕ
read_8 bytes =
    byte_at bytes 1 * 2 ^ 56
    + byte_at bytes 2 * 2 ^ 48
    + byte_at bytes 3 * 2 ^ 40
    + byte_at bytes 4 * 2 ^ 32
    + byte_at bytes 5 * 2 ^ 24
    + byte_at bytes 6 * 2 ^ 16
    + byte_at bytes 7 * 2 ^ 8
    + byte_at bytes 8

-- The second switch: major type 7.
unfoldable pub simple_type : ℕ → DiType
simple_type info =
    if info == 20
    then false_value
    else if info == 21
    then true_value
    else if info == 22
    then null
    else if info == 23
    then undef
    else if info == 24
    then simple8
    else if info == 25
    then float16
    else if info == 26
    then float32
    else if info == 27
    then float64
    else if info == 31
    then break
    else if ltb info 20
    then simple0
    else reserved

unfoldable pub get_type : List ℕ → DiType
unfolding simple_type
get_type bytes =
    let major = bit_and (byte_at bytes 0) 0xe0 in
    if major == major_bits 0
    then uint
    else if major == major_bits 1
    then nint
    else if major == major_bits 2
    then bstr
    else if major == major_bits 3
    then tstr
    else if major == major_bits 4
    then array
    else if major == major_bits 5
    then map
    else if major == major_bits 6
    then tag
    else simple_type (get_info (byte_at bytes 0))

-- SET_OUT_LEN(n, len, out), with what follows it on success: the store of `v`.
unfoldable pub set_out_len : ℕ → ℕ → Decoded → Payload → Bool × Decoded
set_out_len n len out v =
    if (len == 0) || ltb (len - 1) n
    then (false, record out { read_len = 0; req_len = (1 + n) % 2 ^ 64 })
    else (true, record out { read_len = (1 + n) % 2 ^ 64; v = v })

-- DECODE_ERROR(out).
abbrev pub decode_error : Decoded → Bool × Decoded
decode_error out = (false, record out { read_len = 0; req_len = 0 })

-- ADD_OUT_LEN(n, len, out): `len - out->read_len` is the room behind the head.
unfoldable pub add_out_len : ℕ → ℕ → Decoded → Bool × Decoded
add_out_len n len out =
    if ltb (len - out.read_len) n
    then (false, record out { read_len = 0; req_len = (out.read_len + n) % 2 ^ 64 })
    else (true, record out { read_len = out.read_len + n })

unfoldable pub read_int : List ℕ → Decoded → Bool × Decoded
unfolding set_out_len
read_int bytes out =
    let len = length bytes in
    let info = get_info (byte_at bytes 0) in
    if leb info info_int0_max
    then set_out_len 0 len out (i32 info)
    else if info == info_int8
    then set_out_len 1 len out (i32 (read_1 bytes))
    else if info == info_int16
    then set_out_len 2 len out (i32 (read_2 bytes))
    else if info == info_int32
    then set_out_len 4 len out (i32 (read_4 bytes))
    else if info == info_int64
    then set_out_len 8 len out (i64 (read_8 bytes))
    else decode_error out

-- The tail of `read_str`, entered with `out` after the head and with the position of the text.
unfoldable pub finish_str : Bool × Decoded → Option ℕ → ℕ → ℕ → Bool × Decoded
unfolding add_out_len
finish_str (false, out) val str_len len = (false, out)
finish_str (true, out) val str_len len =
    add_out_len str_len len (record out { v = str val str_len })

unfoldable pub read_str : List ℕ → Decoded → Bool × Decoded
unfolding set_out_len
read_str bytes out =
    let len = length bytes in
    let info = get_info (byte_at bytes 0) in
    if leb info info_int0_max
    then finish_str (set_out_len 0 len out out.v) (some 1) info len
    else if info == info_int8
    then finish_str (set_out_len 1 len out out.v) (some 2) (read_1 bytes) len
    else if info == info_int16
    then finish_str (set_out_len 2 len out out.v) (some 3) (read_2 bytes) len
    else if info == info_int32
    then finish_str (set_out_len 4 len out out.v) (some 5) (read_4 bytes) len
    else if info == info_int64
    then finish_str (set_out_len 8 len out out.v) (some 9) (read_8 bytes) len
    else if info == info_indef
    then finish_str (true, out) none 0 len
    else decode_error out

unfoldable pub read_list : List ℕ → Decoded → Bool × Decoded
unfolding set_out_len
read_list bytes out =
    let len = length bytes in
    let info = get_info (byte_at bytes 0) in
    if leb info info_int0_max
    then set_out_len 0 len out (list info false)
    else if info == info_int8
    then set_out_len 1 len out (list (read_1 bytes) false)
    else if info == info_int16
    then set_out_len 2 len out (list (read_2 bytes) false)
    else if info == info_int32
    then set_out_len 4 len out (list (read_4 bytes) false)
    else if info == info_int64
    then set_out_len 8 len out (list (read_8 bytes) false)
    else if info == info_indef
    then set_out_len 0 len out (list 0 true)
    else decode_error out

unfoldable pub read_float : List ℕ → Decoded → Bool × Decoded
unfolding set_out_len
read_float bytes out =
    let len = length bytes in
    let info = get_info (byte_at bytes 0) in
    if info == info_int16
    then set_out_len 2 len out (f16 (read_2 bytes))
    else if info == info_int32
    then set_out_len 4 len out (i32 (read_4 bytes))
    else if info == info_int64
    then set_out_len 8 len out (i64 (read_8 bytes))
    else decode_error out
