-- ===== src/Decimal/Laws.antt =====
-- src/decode.c, `cbor_int_to_str`: the text is the number, the wrap at the end of 64 bits included.
use php_ext_cbor.Base.{
  ℕ, zero, suc, ◌+◌, ◌-◌, ◌*◌, ◌/◌, ◌%◌, ◌^◌, ◌<◌, ◌≡◌, inl, inr, refl, true, false, List, [], ◌∷◌,
  ◌++◌, ltb, ◌==◌, Bool-cases, arith,
}
use native.Mathlib.Nat.{pow-suc}
use php_ext_cbor.Decimal.{digits, decimal, int_to_str}

-- The number that a text of digits stands for, behind the number `n`.
unfoldable pub read_digits : ℕ → List ℕ → ℕ
read_digits n [] = n
read_digits n (c ∷ cs) = read_digits (n * 10 + (c - b'0')) cs

pub read_digits-append :
    (n : ℕ) (s t : List ℕ) → read_digits n (s ++ t) ≡ read_digits (read_digits n s) t
unfolding read_digits
read_digits-append n [] t = refl
read_digits-append n (c ∷ cs) t = read_digits-append (n * 10 + (c - b'0')) cs t

-- As many digits as fuel give the number back, if it has no more.
pub read_digits-digits : (fuel n : ℕ) → n < 10 ^ fuel → read_digits 0 (digits fuel n) ≡ n
unfolding digits read_digits
read_digits-digits zero n h = omega arith
read_digits-digits (suc fuel) n h = elim (Bool-cases (ltb n 10)) [
  | inl e ↦ rw (digits, e) (omega arith)
  | inr e ↦
      let next = pow-suc 10 fuel in
      let high : read_digits 0 (digits fuel (n / 10)) ≡ n / 10 =
        read_digits-digits fuel (n / 10) (omega (arith, next)) in
      rw (digits, e, read_digits-append 0 (digits fuel (n / 10)) _, high) (omega arith)
]

pub read_digits-decimal : (n : ℕ) → n < 2 ^ 64 → read_digits 0 (decimal n) ≡ n
unfolding decimal
read_digits-decimal n h = read_digits-digits 20 n (omega arith)

int_to_str-wrap : int_to_str (2 ^ 64 - 1) true ≡ b'-' ∷ decimal (2 ^ 64)
unfolding int_to_str
int_to_str-wrap = refl

pub int_to_str-negative : (n : ℕ) → n < 2 ^ 64 → int_to_str n true ≡ b'-' ∷ decimal (n + 1)
unfolding int_to_str
int_to_str-negative n h = elim (Bool-cases (n == 2 ^ 64 - 1)) [
  | inl e ↦ let last : n ≡ 2 ^ 64 - 1 = ground arith in rw last int_to_str-wrap
  | inr e ↦
      let small : (n + 1) % 2 ^ 64 ≡ n + 1 = ground arith in
      let more : (n + 1 == 0) ≡ false = ground arith in rw (int_to_str, small, more) refl
]
