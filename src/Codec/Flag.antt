-- ===== src/Codec/Flag.antt =====
-- src/flags.h: the flags by their bit numbers.
use php_ext_cbor.Base.{ℕ}

abbrev pub byte : ℕ
byte = 0

abbrev pub text : ℕ
text = 1

abbrev pub int_key : ℕ
int_key = 2

abbrev pub key_byte : ℕ
key_byte = 3

abbrev pub key_text : ℕ
key_text = 4

abbrev pub unsafe_text : ℕ
unsafe_text = 5

abbrev pub map_as_array : ℕ
map_as_array = 6

abbrev pub map_no_dup_key : ℕ
map_no_dup_key = 7

abbrev pub float16 : ℕ
float16 = 8

abbrev pub float32 : ℕ
float32 = 9

abbrev pub cde : ℕ
cde = 13

abbrev pub edn : ℕ
edn = 14

abbrev pub self_describe : ℕ
self_describe = 15
