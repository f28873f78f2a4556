-- ===== src/Decimal.antt =====
-- Decimal text: the format `%u` of the C library, `ZEND_LTOA`, and `cbor_int_to_str` of
-- src/decode.c.
pub mod Laws
pub mod Digits
pub mod Canonical
use php_ext_cbor.Base.{
  ℕ, zero, suc, ◌+◌, ◌-◌, ◌/◌, ◌%◌, ◌^◌, Bool, true, false, List, [], ◌∷◌, ◌++◌, ltb, ◌==◌,
  if◌then◌else◌,
}
use php_ext_cbor.Base.Int.{ℤ, pos, negsuc}

-- The digits of a number, one for a unit of fuel.
unfoldable pub digits : ℕ → ℕ → List ℕ
digits zero n = []
digits (suc fuel) n = elim (ltb n 10) [
  | true ↦ (b'0' + n) ∷ []
  | false ↦ digits fuel (n / 10) ++ (b'0' + n % 10) ∷ []
]

-- A `uint64_t` has 20 digits at most.
unfoldable pub decimal : ℕ → List ℕ
unfolding digits
decimal n = digits 20 n

-- The last byte of a text plus one: `buf[len - 1]++`.
unfoldable pub bump_last : List ℕ → List ℕ
bump_last [] = []
bump_last (c ∷ []) = (c + 1) % 256 ∷ []
bump_last (c ∷ d ∷ cs) = c ∷ bump_last (d ∷ cs)

-- `cbor_int_to_str`: a negative integer is -1 - value; where that wraps, the last digit is mended.
unfoldable pub int_to_str : ℕ → Bool → List ℕ
unfolding decimal bump_last
int_to_str value false = decimal value
int_to_str value true =
    let n_value = (value + 1) % 2 ^ 64 in
    if n_value == 0
    then bump_last (b'-' ∷ decimal ((n_value + 2 ^ 64 - 1) % 2 ^ 64))
    else b'-' ∷ decimal n_value

-- ZEND_LTOA.
unfoldable pub long_to_str : ℤ → List ℕ
unfolding decimal
long_to_str (pos n) = decimal n
long_to_str (negsuc n) = b'-' ∷ decimal (n + 1)
