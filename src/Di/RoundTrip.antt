-- ===== src/Di/RoundTrip.antt =====
-- src/di_encoder.c against src/di_decoder.c: a head that was written is read back.
use php_ext_cbor.Base.{
  ℕ, ◌+◌, ◌*◌, ◌%◌, ◌<◌, ◌≡◌, true, false, List, [], ◌∷◌, ◌++◌, leb, if◌then◌else◌, arith, length,
  length-append, some,
}
use php_ext_cbor.Base.Bits.{major_bits, info_bits}
use php_ext_cbor.Di.{
  DiType, major_type, IsU64, Payload, i32, i64, list, str, Decoded, uint, nint, bstr, tstr, array,
  map, tag,
}
use php_ext_cbor.Di.Encoder.{int_head, write_int, be16, be32, be64, octet}
use php_ext_cbor.Di.Decoder.{get_type, get_info, read_int, read_str, read_list, finish_str}

-- The byte count of a head, by the value that it holds.
unfoldable pub head_len : ℕ → ℕ
head_len val =
    if leb val 23
    then 1
    else if leb val 0xff
    then 2
    else if leb val 0xffff
    then 3
    else if leb val 0xffff_ffff
    then 5
    else 9

-- A value of the widest head goes into the 64-bit member, any other into the 32-bit one.
unfoldable pub payload_of : ℕ → Payload
payload_of val = if leb val 0xffff_ffff then i32 val else i64 val

pub length-int_head : (m val : ℕ) → length (int_head m val) ≡ head_len val
unfolding int_head head_len
length-int_head m val = ground arith

pub initial_info : (m k : ℕ) → m < 8 → k < 32 → get_info (m * 32 + k) ≡ k
initial_info m k hm hk = omega (arith, info_bits (m * 32 + k))

module _ (m val : ℕ) (rest : List ℕ) (out : Decoded) (hm : m < 8) (hv : IsU64 val) where
  pub read_int-int_head :
      read_int (int_head (m * 32) val ++ rest) out
      ≡ (true, record out { read_len = head_len val; v = payload_of val })
  unfolding read_int int_head head_len payload_of
  read_int-int_head = ground (
    arith,
    initial_info m (val % 256),
    initial_info m 24,
    initial_info m 25,
    initial_info m 26,
    initial_info m 27,
  )

  pub read_list-int_head :
      read_list (int_head (m * 32) val ++ rest) out
      ≡ (true, record out { read_len = head_len val; v = list val false })
  unfolding read_list int_head head_len
  read_list-int_head = ground (
    arith,
    initial_info m (val % 256),
    initial_info m 24,
    initial_info m 25,
    initial_info m 26,
    initial_info m 27,
  )

  pub read_str-int_head :
      read_str (int_head (m * 32) val ++ rest) out
      ≡ finish_str
          (true, record out { read_len = head_len val })
          (some (head_len val))
          val
          (head_len val + length rest)
  unfolding read_str int_head head_len
  read_str-int_head = ground (
    arith,
    initial_info m (val % 256),
    initial_info m 24,
    initial_info m 25,
    initial_info m 26,
    initial_info m 27,
  )

get_type-byte :
    (t : DiType) (k : ℕ) (rest : List ℕ)
    → major_type t < 7
    → k < 32
    → get_type ((major_type t * 32 + k) ∷ rest) ≡ t
unfolding get_type
get_type-byte uint k rest h hk = ground (arith, major_bits k)
get_type-byte nint k rest h hk = ground (arith, major_bits (32 + k))
get_type-byte bstr k rest h hk = ground (arith, major_bits (64 + k))
get_type-byte tstr k rest h hk = ground (arith, major_bits (96 + k))
get_type-byte array k rest h hk = ground (arith, major_bits (128 + k))
get_type-byte map k rest h hk = ground (arith, major_bits (160 + k))
get_type-byte tag k rest h hk = ground (arith, major_bits (192 + k))
get_type-byte _ k rest h hk = absurd (omega arith)

pub get_type-write_int :
    (t : DiType) (val : ℕ) (rest : List ℕ)
    → major_type t < 7
    → get_type (write_int [] t val ++ rest) ≡ t
unfolding write_int int_head
get_type-write_int t val rest h = ground (
  arith,
  get_type-byte t (val % 256) rest,
  get_type-byte t 24 (octet val 0 ∷ rest),
  get_type-byte t 25 (be16 val ++ rest),
  get_type-byte t 26 (be32 val ++ rest),
  get_type-byte t 27 (be64 val ++ rest),
)

-- A string behind its head is read with its position and length, whatever follows it.
pub read_str-string :
    (t : DiType) (s rest : List ℕ) (out : Decoded)
    → major_type t < 7
    → IsU64 (length s + 9)
    → read_str (write_int [] t (length s) ++ (s ++ rest)) out ≡ (
      true,
      record out {
        read_len = head_len (length s) + length s;
        v = str (some (head_len (length s))) (length s);
      },
    )
unfolding write_int
read_str-string t s rest out ht hs =
    rw (read_str-int_head (major_type t) (length s) (s ++ rest) out (omega arith) (omega arith))
      (rw (length-append s rest) (unfold finish_str in (ground arith)))
