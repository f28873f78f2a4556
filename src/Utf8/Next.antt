-- ===== src/Utf8/Next.antt =====
-- src/utf8.c, `cbor_next_utf8`: it reads back the character that a text begins with.
use php_ext_cbor.Base.{ℕ, ◌+◌, ◌*◌, ◌/◌, ◌%◌, ◌^◌, ◌≤◌, ◌<◌, ◌≡◌, ◌≢◌, List, ◌∷◌, ◌++◌, arith}
use native.Mathlib.Decide.{dec_lt}
use php_ext_cbor.Utf8.{next_loop, next_utf8}
use php_ext_cbor.Utf8.Encoding.{IsScalar, tail_byte, encode_char}
use php_ext_cbor.Utf8.Table.{
  next_by_range, lead, next_state-by_range, mask-lead_bits, mask-tail_bits, lead_bits,
}

module _ (str ptr : List ℕ) where
  -- A first byte of two and more.
  lead_step :
      (b cp : ℕ)
      → 0xc2 ≤ b
      → b ≤ 0xf4
      → next_loop str (b ∷ ptr) 0 cp ≡ next_loop str ptr (lead b) (lead_bits b)
  unfolding next_loop
  lead_step b cp lo hi =
      ground (arith, next_state-by_range 0 b (omega arith) (omega arith), mask-lead_bits b lo hi)

  -- A byte 10xxxxxx that is not the last of its character, and one that is.
  inner_step :
      (k s' b cp : ℕ)
      → k < 9
      → 0 < k
      → b < 256
      → next_by_range (12 * k) b ≡ s'
      → s' ≢ 0
      → s' ≢ 12
      → cp < 2 ^ 26
      → next_loop str (b ∷ ptr) (12 * k) cp ≡ next_loop str ptr s' (b % 64 + cp * 64)
  unfolding next_loop
  inner_step k s' b cp hk pos hb e nz nr hc =
      ground (arith, next_state-by_range k b hk hb, mask-tail_bits b hb)

  last_step :
      (b cp : ℕ)
      → 0x80 ≤ b
      → b < 0xc0
      → cp < 2 ^ 26
      → next_loop str (b ∷ ptr) 24 cp ≡ (b % 64 + cp * 64, ptr)
  unfolding next_loop
  last_step b cp lo hi hc =
      ground
        (arith, next_state-by_range 2 b (omega arith) (omega arith), mask-tail_bits b (omega arith))

module _ (str rest : List ℕ) (cp : ℕ) where
  short_char :
      0x80 ≤ cp
      → cp < 0x800
      → next_loop str (encode_char cp ++ rest) 0 (0xc0 + cp / 64) ≡ (cp, rest)
  unfolding encode_char
  short_char lo hi = ground (
    arith,
    lead_step str (tail_byte cp 1 ∷ rest) (0xc0 + cp / 64) (0xc0 + cp / 64),
    last_step str rest (tail_byte cp 1) (cp / 64),
  )

  long_char :
      0x800 ≤ cp
      → cp < 0x1_0000
      → IsScalar cp
      → next_loop str (encode_char cp ++ rest) 0 (0xe0 + cp / 4096) ≡ (cp, rest)
  unfolding encode_char
  long_char lo hi h = ground (
    arith,
    lead_step str (tail_byte cp 64 ∷ tail_byte cp 1 ∷ rest) (0xe0 + cp / 4096) (0xe0 + cp / 4096),
    inner_step str (tail_byte cp 1 ∷ rest) 3 24 (tail_byte cp 64) (cp / 4096),
    inner_step str (tail_byte cp 1 ∷ rest) 4 24 (tail_byte cp 64) (cp / 4096),
    inner_step str (tail_byte cp 1 ∷ rest) 5 24 (tail_byte cp 64) (cp / 4096),
    last_step str rest (tail_byte cp 1) (cp / 64),
  )

  wide_char :
      0x1_0000 ≤ cp
      → cp < 0x11_0000
      → next_loop str (encode_char cp ++ rest) 0 (0xf0 + cp / 262144) ≡ (cp, rest)
  unfolding encode_char
  wide_char lo hi = ground (
    arith,
    lead_step str (tail_byte cp 4096 ∷ tail_byte cp 64 ∷ tail_byte cp 1 ∷ rest) (0xf0 + cp / 262144)
        (0xf0 + cp / 262144),
    inner_step str (tail_byte cp 64 ∷ tail_byte cp 1 ∷ rest) 6 36 (tail_byte cp 4096) (cp / 262144),
    inner_step str (tail_byte cp 64 ∷ tail_byte cp 1 ∷ rest) 7 36 (tail_byte cp 4096) (cp / 262144),
    inner_step str (tail_byte cp 64 ∷ tail_byte cp 1 ∷ rest) 8 36 (tail_byte cp 4096) (cp / 262144),
    inner_step str (tail_byte cp 1 ∷ rest) 3 24 (tail_byte cp 64) (cp / 4096),
    last_step str rest (tail_byte cp 1) (cp / 64),
  )

-- The character that a text begins with is read, and the pointer moves behind it.
pub next_utf8-encode_char :
    (cp : ℕ) (rest : List ℕ) → IsScalar cp → next_utf8 (encode_char cp ++ rest) ≡ (cp, rest)
unfolding next_utf8 encode_char
next_utf8-encode_char cp rest h = elim (dec_lt cp 0x80) [
  | yes p ↦ ground arith
  | no p ↦ elim (dec_lt cp 0x800) [
    | yes q ↦ ground (arith, short_char (encode_char cp ++ rest) rest cp)
    | no q ↦ elim (dec_lt cp 0x1_0000) [
      | yes r ↦ ground (arith, long_char (encode_char cp ++ rest) rest cp)
      | no r ↦ ground (arith, wide_char (encode_char cp ++ rest) rest cp)
    ]
  ]
]
