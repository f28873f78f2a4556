-- ===== src/Decimal/Canonical.antt =====
-- src/decode.c, `cbor_int_to_str`: the text is the one decimal numeral of the integer.
use php_ext_cbor.Base.{
  ℕ, zero, suc, ◌+◌, ◌^◌, ◌<◌, ◌≡◌, ◌≢◌, ◌⊎◌, inl, inr, refl, Bool, true, false, List, [], ◌∷◌,
  length, get_or, arith,
}
use php_ext_cbor.Decimal.{digits, decimal, int_to_str}
use php_ext_cbor.Decimal.Laws.{read_digits, read_digits-digits, int_to_str-negative}
use php_ext_cbor.Decimal.Digits.{AllDigits, digits-AllDigits, digits-head, decimal-digits}

-- A text of digits that stands for `n`: there is one at least, and no zero in front unless the text is
-- that digit.
pub record IsNumeral (n : ℕ) (s : List ℕ) : Type 0 where
  pub all_digits : AllDigits s
  pub nonempty : 0 < length s
  pub front : (s ≡ b'0' ∷ []) ⊎ (get_or s 0 0 ≢ b'0')
  pub stands_for : read_digits 0 s ≡ n

-- The text of an integer with its sign: a negative one, which is -1 - value, has a minus sign and the
-- numeral of its absolute value.
abbrev pub IsSigned : ℕ → Bool → List ℕ → Type 0
IsSigned value false s = IsNumeral value s
IsSigned value true [] = ⊥
IsSigned value true (c ∷ s) = (c ≡ b'-') × IsNumeral (value + 1) s

zero_digits : digits 20 0 ≡ b'0' ∷ []
unfolding digits
zero_digits = refl

decimal-IsNumeral : (n : ℕ) → n < 2 ^ 64 + 1 → IsNumeral n (decimal n)
decimal-IsNumeral zero h = rw (decimal-digits 0) (record {
  all_digits = digits-AllDigits 20 0;
  nonempty = rw zero_digits (omega arith);
  front = inl zero_digits;
  stands_for = read_digits-digits 20 0 (omega arith);
})
decimal-IsNumeral (suc n) h =
    let (some_of, front, short) = digits-head 20 (suc n) (omega arith) (omega arith) in
    rw (decimal-digits (suc n)) (record {
      all_digits = digits-AllDigits 20 (suc n);
      nonempty = some_of;
      front = inr front;
      stands_for = read_digits-digits 20 (suc n) (omega arith);
    })

-- The text of an integer from -2^64 to 2^64 - 1 is its decimal numeral: a minus sign if it is
-- negative, then digits only, with no zero in front unless the only digit is 0, that stand for its
-- absolute value.
pub int_to_str-IsSigned :
    (value : ℕ) (is_negative : Bool)
    → value < 2 ^ 64
    → IsSigned value is_negative (int_to_str value is_negative)
unfolding int_to_str
int_to_str-IsSigned value false h = decimal-IsNumeral value (omega arith)
int_to_str-IsSigned value true h =
    rw (int_to_str-negative value h) (refl, decimal-IsNumeral (value + 1) (omega arith))
