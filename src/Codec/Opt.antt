-- ===== src/Codec/Opt.antt =====
-- src/codec.h: the values of the options `string_ref` and `shared_ref`.
use php_ext_cbor.Base.{ℕ}

abbrev pub opt_true : ℕ
opt_true = 1

abbrev pub explicit : ℕ
explicit = 2

abbrev pub shareable : ℕ
shareable = 2

abbrev pub shareable_only : ℕ
shareable_only = 3

abbrev pub unsafe_ref : ℕ
unsafe_ref = 4
