-- ===== src/Codec/Tag.antt =====
-- src/tags.h: the tags that the code gives a meaning.
use php_ext_cbor.Base.{ℕ}

abbrev pub datetime : ℕ
datetime = 0

abbrev pub bignum_u : ℕ
bignum_u = 2

abbrev pub bignum_n : ℕ
bignum_n = 3

abbrev pub decimal : ℕ
decimal = 4

abbrev pub string_ref : ℕ
string_ref = 25

abbrev pub shareable : ℕ
shareable = 28

abbrev pub shared_ref : ℕ
shared_ref = 29

abbrev pub uri : ℕ
uri = 32

abbrev pub string_ref_ns : ℕ
string_ref_ns = 256

abbrev pub self_describe : ℕ
self_describe = 55799
