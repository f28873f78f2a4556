-- ===== src/Codec/StringRef.antt =====
-- src/decode.c, `cbor_is_len_string_ref`: the length from which on a reference pays.
use php_ext_cbor.Base.{ℕ, ◌≡◌, ◌++◌, leb, length, arith, length-append}
use php_ext_cbor.Codec.{is_len_string_ref}
use php_ext_cbor.Codec.Tag
use php_ext_cbor.Di.Encoder.{int_head}
use php_ext_cbor.Di.RoundTrip.{head_len, length-int_head}

-- A string gets an index exactly when its content is no shorter than the reference would be: the
-- head of the tag 25 and the head of the next index.
pub is_len_string_ref-reference :
    (n i : ℕ) → is_len_string_ref n i ≡ leb (length (int_head 6 Tag.string_ref ++ int_head 0 i)) n
unfolding is_len_string_ref head_len
is_len_string_ref-reference n i =
    ground (
      arith,
      length-append (int_head 6 25) (int_head 0 i),
      length-int_head 6 25,
      length-int_head 0 i,
    )
