-- ===== src/Di/Heads.antt =====
-- src/di_decoder.c on any input, well formed or not.
use php_ext_cbor.Base.{
  ℕ, zero, suc, ◌≤◌, ◌<◌, ◌≡◌, refl, true, false, List, [], ◌∷◌, ◌++◌, arith, length, length-append,
  ◌≢◌,
}
use php_ext_cbor.Di.{IsU64, IsByte, Payload, i32, i64, Decoded}
use php_ext_cbor.Di.Decoder.{read_int, byte_at}
use php_ext_cbor.Di.RoundTrip.{head_len}

abbrev AllBytes : List ℕ → Type 0
AllBytes [] = Unit
AllBytes (b ∷ bs) = IsByte b × AllBytes bs

byte_at-IsByte : (bytes : List ℕ) (i : ℕ) → AllBytes bytes → IsByte (byte_at bytes i)
byte_at-IsByte [] i h = omega arith
byte_at-IsByte (b ∷ bs) zero h = h.0
byte_at-IsByte (b ∷ bs) (suc i) h = byte_at-IsByte bs i h.1

pub byte_at-append :
    (bytes more : List ℕ) (i : ℕ) → i < length bytes → byte_at (bytes ++ more) i ≡ byte_at bytes i
byte_at-append [] more i h = absurd (omega arith)
byte_at-append (b ∷ bs) more zero h = refl
byte_at-append (b ∷ bs) more (suc i) h = byte_at-append bs more i (omega arith)

-- The number that a read of an integer left.
pub int_value : Payload → ℕ
int_value (i32 n) = n
int_value (i64 n) = n
int_value _ = 0

module _ (bytes : List ℕ) (out o : Decoded) where
  -- A successful read stays inside the input, gives a 64-bit value and is nowhere shorter than the
  -- head that the encoder writes for that value.
  pub read_int_bounds :
      AllBytes bytes
      → read_int bytes out ≡ (true, o)
      → (o.read_len ≤ length bytes)
        × IsU64 (int_value o.v)
        × (head_len (int_value o.v) ≤ o.read_len)
  unfolding read_int int_value head_len
  read_int_bounds h e = ground (
    arith,
    byte_at-IsByte bytes 1 h,
    byte_at-IsByte bytes 2 h,
    byte_at-IsByte bytes 3 h,
    byte_at-IsByte bytes 4 h,
    byte_at-IsByte bytes 5 h,
    byte_at-IsByte bytes 6 h,
    byte_at-IsByte bytes 7 h,
    byte_at-IsByte bytes 8 h,
  )

module _ (bytes more : List ℕ) (out o : Decoded) where
  pub read_int-append : read_int bytes out ≡ (true, o) → read_int (bytes ++ more) out ≡ (true, o)
  unfolding read_int
  read_int-append e = ground (
    arith,
    length-append bytes more,
    byte_at-append bytes more 0,
    byte_at-append bytes more 1,
    byte_at-append bytes more 2,
    byte_at-append bytes more 3,
    byte_at-append bytes more 4,
    byte_at-append bytes more 5,
    byte_at-append bytes more 6,
    byte_at-append bytes more 7,
    byte_at-append bytes more 8,
  )

module _ (bytes more : List ℕ) (out o : Decoded) (nonempty : 0 < length bytes)
    (e : read_int bytes out ≡ (false, o)) (n : o.req_len ≢ 0) where
  -- A read that wants more bytes names a length that the input does not have.
  pub read_int_short : length bytes < o.req_len
  unfolding read_int
  read_int_short = ground arith

  -- Reading a head that wants more bytes succeeds, and takes just the length that it asked for, once
  -- more bytes follow and the input has that length.
  pub read_int_resumes :
      o.req_len ≤ length (bytes ++ more)
      → ((read_int (bytes ++ more) out).0 ≡ true)
        × ((read_int (bytes ++ more) out).1.read_len ≡ o.req_len)
  unfolding read_int
  read_int_resumes h = ground (arith, length-append bytes more, byte_at-append bytes more 0)
