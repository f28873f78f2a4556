-- ===== src/Enc/Keys/Exact.antt =====
-- src/encode.c, `convert_string_to_int`, against `cbor_int_to_str` of src/decode.c: one is the inverse
-- of the other.
use native.Mathlib.Nat.{pow-suc}
use native.Mathlib.Numerals.{add-one}
use php_ext_cbor.Base.{
  ℕ, zero, suc, ◌+◌, ◌-◌, ◌*◌, ◌/◌, ◌%◌, ◌^◌, ◌<◌, ◌≤◌, ◌≡◌, ◌≢◌, ◌⊎◌, inl, inr, refl, ap, ◌∙◌,
  Bool, true, false, ◌&&◌, ◌||◌, Option, none, some, List, [], ◌∷◌, ◌++◌, ltb, leb, leb→le, ◌==◌,
  if◌then◌else◌, length, get_or, Bool-cases, arith, length-append,
}
use php_ext_cbor.Base.Bits.{passes_under, passes_under_at}
use php_ext_cbor.Decimal.{decimal, int_to_str, digits}
use php_ext_cbor.Decimal.Laws.{
  read_digits, read_digits-append, read_digits-decimal, read_digits-digits, int_to_str-negative,
}
use php_ext_cbor.Decimal.Digits.{
  IsDigit, AllDigits, digits-AllDigits, digits-last, digits-head, read_digits-ge,
}
use php_ext_cbor.Enc.Keys.{
  set_last, dec_loop, negative_result, unsigned_result, convert_negative, convert_string_to_int,
}

and_false : (b : Bool) → (b && false) ≡ false
and_false true = refl
and_false false = refl

-- The loop reads a number of 64 bits.
dec_loop-digits :
    (s : List ℕ) (i n : ℕ)
    → AllDigits s
    → read_digits n s < 2 ^ 64
    → dec_loop i n s ≡ some (read_digits n s)
unfolding dec_loop read_digits
dec_loop-digits [] i n p h = refl
dec_loop-digits (c ∷ s) i n p h =
    let m = n * 10 + (c - b'0') in
    let small : m < 2 ^ 64 = omega (arith, read_digits-ge m s) in
    let whole : m % 2 ^ 64 ≡ m = omega arith in
    let low : ltb c b'0' ≡ false = ground (arith, p.0.0) in
    let high : ltb b'9' c ≡ false = ground (arith, p.0.1) in
    let fits : ltb ((2 ^ 64 - 1 - (c - b'0')) / 10) n ≡ false = ground arith in
    rw (low, high, fits, whole, and_false (ltb 18 i)) (dec_loop-digits s (i + 1) m p.1 h)

powers : passes_under 19 (λ i. leb (10 ^ i) (10 ^ 18)) ≡ true
unfolding passes_under
powers = refl

-- Where the loop does not look for an overflow, there is none.
no_overflow : (i n : ℕ) → i ≤ 18 → n < 10 ^ i → n < 10 ^ 18
no_overflow i n h small =
    let le : leb (10 ^ i) (10 ^ 18) ≡ true =
      passes_under_at 19 (λ i. leb (10 ^ i) (10 ^ 18)) i powers (omega arith) in
    omega (arith, leb→le (10 ^ i) (10 ^ 18) le)

-- The test that ends the loop.
abbrev stops : ℕ → ℕ → ℕ → Bool
stops i n c = ltb c b'0' || ltb b'9' c || (ltb 18 i && ltb ((2 ^ 64 - 1 - (c - b'0')) / 10) n)

goes_on :
    (i n c : ℕ)
    → stops i n c ≡ false
    → IsDigit c × ((i ≤ 18) ⊎ (n ≤ (2 ^ 64 - 1 - (c - b'0')) / 10))
goes_on i n c e = elim (Bool-cases (ltb 18 i)) [
  | inl late ↦ ((ground arith, ground arith), inr (ground arith))
  | inr early ↦ ((ground arith, ground arith), inl (ground arith))
]

roomy :
    (i n c : ℕ)
    → IsDigit c
    → (i ≤ 19 → n < 10 ^ i)
    → (i ≤ 18) ⊎ (n ≤ (2 ^ 64 - 1 - (c - b'0')) / 10)
    → n * 10 + (c - b'0') < 2 ^ 64
roomy i n c d few (inl early) = omega (arith, no_overflow i n early (few (omega arith)), d.1)
roomy i n c d few (inr room) = omega (arith, d.0, d.1)

-- What the loop reads to the end is digits, and their number.
pub dec_loop-inverse :
    (s : List ℕ) (i n v : ℕ)
    → (i ≤ 19 → n < 10 ^ i)
    → n < 2 ^ 64
    → dec_loop i n s ≡ some v
    → AllDigits s × (v ≡ read_digits n s) × (v < 2 ^ 64)
unfolding dec_loop read_digits
dec_loop-inverse [] i n v few small h =
    (tt, (let e : v ≡ n = cc in e), (let e : v ≡ n = cc in rw e small))
dec_loop-inverse (c ∷ s) i n v few small h = elim (Bool-cases (stops i n c)) [
  | inl e ↦ cc (rw e at h)
  | inr e ↦
      let m = n * 10 + (c - b'0') in
      let (digit, room) = goes_on i n c e in
      let fits : m < 2 ^ 64 = roomy i n c digit few room in
      let whole : m % 2 ^ 64 ≡ m = omega arith in
      let next_power : 10 ^ (i + 1) ≡ 10 ^ i * 10 =
        ap (λ (k : ℕ). 10 ^ k) (add-one i) ∙ pow-suc 10 i in
      let (rest, value, short) =
        dec_loop-inverse s (i + 1) m v (λ le. omega (arith, few (omega arith), next_power, digit.1))
          fits (rw whole at (rw e at h)) in
      ((digit, rest), value, short)
]

pub set_last-append : (s : List ℕ) (c d : ℕ) → set_last d (s ++ c ∷ []) ≡ s ++ d ∷ []
unfolding set_last
set_last-append [] c d = refl
set_last-append (a ∷ []) c d = refl
set_last-append (a ∷ b ∷ s) c d = ap (λ (t : List ℕ). a ∷ t) (set_last-append (b ∷ s) c d)

pub last_of : (s : List ℕ) (c : ℕ) → get_or (s ++ c ∷ []) (length (s ++ c ∷ []) - 1) 0 ≡ c
last_of [] c = refl
last_of (a ∷ s) c =
    let e : suc (length (s ++ c ∷ [])) - 1 ≡ suc (length (s ++ c ∷ []) - 1) =
      omega (arith, length-append s (c ∷ [])) in
    ap (λ (k : ℕ). get_or (a ∷ (s ++ c ∷ [])) k 0) e ∙ last_of s c

-- A text of digits with no zero in front.
record IsNumeral (t : List ℕ) : Type 0 where
  all_digits : AllDigits t
  front : get_or t 0 0 ≢ b'0'
  some_digits : 0 < length t
  short : length t ≤ 20
  small : read_digits 0 t < 2 ^ 64

decimal-IsNumeral : (n : ℕ) → 0 < n → n < 2 ^ 64 → IsNumeral (decimal n)
unfolding decimal
decimal-IsNumeral n pos h =
    let (long, front, short) = digits-head 20 n pos (omega arith) in
    record {
      all_digits = digits-AllDigits 20 n;
      front = front;
      some_digits = long;
      short = short;
      small = omega (arith, read_digits-decimal n h);
    }

passes :
    {A : Type 0} (a : Bool)
    → a ≡ false
    → (b : Bool) → b ≡ false
    → (c : Bool) → c ≡ false
    → (d : Bool) → d ≡ false
    → (u v w x y : A) → (if a then u else if b then v else if c then w else if d then x else y) ≡ y
passes a p b q c r d t u v w x y = rw (p, q, r, t) refl

convert-numeral :
    (t : List ℕ) → IsNumeral t → convert_string_to_int t ≡ some (read_digits 0 t, false)
unfolding convert_string_to_int
convert-numeral [] k = absurd (omega (arith, k.some_digits))
convert-numeral (c ∷ s) k =
    let digit = k.all_digits.0 in
    let in_range : (ltb c b'-' || ltb b'9' c) ≡ false = ground (arith, digit.0, digit.1) in
    let short : ltb 21 (length (c ∷ s)) ≡ false = ground (arith, k.short) in
    let front : (c == b'0') ≡ false = ground (arith, k.front) in
    let plus : (c == b'-') ≡ false = ground (arith, digit.0) in
    passes _ in_range _ short _ front _ plus none none _ _ _
    ∙ ap unsigned_result (dec_loop-digits (c ∷ s) 0 0 k.all_digits k.small)

-- The text of a number that is not negative is converted back.
convert-decimal : (n : ℕ) → n < 2 ^ 64 → convert_string_to_int (decimal n) ≡ some (n, false)
unfolding convert_string_to_int decimal
convert-decimal zero h = refl
convert-decimal (suc n) h =
    convert-numeral (decimal (suc n)) (decimal-IsNumeral (suc n) (omega arith) h)
    ∙ ap (λ (v : ℕ). let r : Option (ℕ × Bool) = some (v, false) in r)
        (read_digits-decimal (suc n) h)

-- The digits behind a minus sign, once the last one is mended.
abbrev negative_digits : Bool → List ℕ → Option (ℕ × Bool)
negative_digits fix digits =
    let c = get_or digits 0 0 in
    if (c == b'-') || (c == b'0') || (c == 0)
    then none
    else negative_result fix (dec_loop 0 0 digits)

negative-numeral :
    (fix : Bool) (t : List ℕ)
    → IsNumeral t
    → negative_digits fix t ≡ negative_result fix (some (read_digits 0 t))
negative-numeral fix [] k = absurd (omega (arith, k.some_digits))
negative-numeral fix (c ∷ s) k =
    let digit = k.all_digits.0 in
    let minus : (c == b'-') ≡ false = ground (arith, digit.0) in
    let front : (c == b'0') ≡ false = ground (arith, k.front) in
    let there : (c == 0) ≡ false = ground (arith, digit.0) in
    rw (minus, front, there)
      (ap (negative_result fix) (dec_loop-digits (c ∷ s) 0 0 k.all_digits k.small))

-- The last digit 6 becomes 5.
pub AllDigits-last :
    (s : List ℕ) (c d : ℕ) → AllDigits (s ++ c ∷ []) → IsDigit d → AllDigits (s ++ d ∷ [])
AllDigits-last [] c d p q = (q, tt)
AllDigits-last (a ∷ s) c d p q = (p.0, AllDigits-last s c d p.1 q)

pub front-last :
    (s : List ℕ) (c d : ℕ)
    → get_or (s ++ c ∷ []) 0 0 ≢ b'0'
    → d ≢ b'0'
    → get_or (s ++ d ∷ []) 0 0 ≢ b'0'
front-last [] c d h k = k
front-last (a ∷ s) c d h k = h

pub read-last :
    (s : List ℕ) (c : ℕ) → read_digits 0 (s ++ c ∷ []) ≡ read_digits 0 s * 10 + (c - b'0')
unfolding read_digits
read-last s c = read_digits-append 0 s (c ∷ [])

-- The numeral of n + 1, its last digit lowered by one, is one of n.
mended :
    (s : List ℕ) (n : ℕ)
    → n < 2 ^ 64
    → AllDigits (s ++ b'6' ∷ [])
    → get_or (s ++ b'6' ∷ []) 0 0 ≢ b'0'
    → length (s ++ b'6' ∷ []) ≤ 20
    → read_digits 0 (s ++ b'6' ∷ []) ≡ n + 1
    → IsNumeral (s ++ b'5' ∷ []) × (read_digits 0 (s ++ b'5' ∷ []) ≡ n)
mended s n h all front short value =
    let same : read_digits 0 (s ++ b'5' ∷ []) ≡ n =
      omega (arith, read-last s b'5', read-last s b'6') in
    (
      record {
        all_digits = AllDigits-last s b'6' b'5' all (omega arith);
        front = front-last s b'6' b'5' front (λ e. absurd (omega arith));
        some_digits = omega (arith, length-append s (b'5' ∷ []));
        short = omega (arith, length-append s (b'5' ∷ []), length-append s (b'6' ∷ []));
        small = omega arith;
      },
      same,
    )

-- The text of a negative number ends in 6, and is mended, or not.
by_last :
    (t s : List ℕ) (n d : ℕ)
    → t ≡ s ++ (b'0' + d) ∷ []
    → d ≡ (n + 1) % 10
    → n < 2 ^ 64
    → AllDigits t
    → get_or t 0 0 ≢ b'0'
    → length t ≤ 20
    → read_digits 0 t ≡ n + 1
    → convert_negative t ≡ some (n, true)
unfolding convert_negative
by_last t s n d e last h all front short value = elim (Bool-cases (b'0' + d == b'6')) [
  | inl six ↦
      let digit : b'0' + d ≡ b'6' = ground arith in
      let whole : t ≡ s ++ b'6' ∷ [] = e ∙ ap (λ (c : ℕ). s ++ c ∷ []) digit in
      let (k, same) =
        mended s n h (rw whole at all) (rw whole at front) (rw whole at short)
          (rw whole at value) in
      rw (whole, last_of s b'6', set_last-append s b'6' b'5')
        (negative-numeral true (s ++ b'5' ∷ []) k
          ∙ ap (λ (v : ℕ). let r : Option (ℕ × Bool) = some (v, true) in r) same)
  | inr other ↦
      let small : n + 1 < 2 ^ 64 = ground arith in
      let tested : (get_or t (length t - 1) 0 == b'6') ≡ false =
        rw (e, last_of s (b'0' + d)) other in
      let numeral : IsNumeral t = record {
        all_digits = all;
        front = front;
        some_digits = rw e (omega (arith, length-append s ((b'0' + d) ∷ [])));
        short = short;
        small = omega arith;
      } in
      rw tested (
        negative-numeral false t numeral
        ∙ ap (λ (v : ℕ). let r : Option (ℕ × Bool) = some (v, true) in r)
            (let back : (read_digits 0 t + 2 ^ 64 - 1) % 2 ^ 64 ≡ n = omega arith in back))
]

convert_negative-decimal :
    (n : ℕ)
    → n < 2 ^ 64
    → (convert_negative (decimal (n + 1)) ≡ some (n, true)) × (length (decimal (n + 1)) ≤ 20)
unfolding decimal
convert_negative-decimal n h =
    let (s, last) = digits-last 19 (n + 1) in
    let (long, front, short) = digits-head 20 (n + 1) (omega arith) (omega arith) in
    (
      by_last (digits 20 (n + 1)) s n ((n + 1) % 10) last refl h (digits-AllDigits 20 (n + 1)) front
          short (read_digits-digits 20 (n + 1) (omega arith)),
      short,
    )

convert-minus : (t : List ℕ) → length t ≤ 20 → convert_string_to_int (b'-' ∷ t) ≡ convert_negative t
unfolding convert_string_to_int
convert-minus t h = let short : ltb 21 (suc (length t)) ≡ false = ground arith in rw short refl

pub int_to_str-natural : (n : ℕ) → int_to_str n false ≡ decimal n
unfolding int_to_str
int_to_str-natural n = refl

-- The text of an integer from -2^64 to 2^64 - 1, as `cbor_int_to_str` writes it, is converted to that
-- integer.
pub convert_string_to_int-int_to_str :
    (n : ℕ) (is_negative : Bool)
    → n < 2 ^ 64
    → convert_string_to_int (int_to_str n is_negative) ≡ some (n, is_negative)
convert_string_to_int-int_to_str n false h =
    ap convert_string_to_int (int_to_str-natural n) ∙ convert-decimal n h
convert_string_to_int-int_to_str n true h =
    let (run, short) = convert_negative-decimal n h in
    ap convert_string_to_int (int_to_str-negative n h) ∙ convert-minus (decimal (n + 1)) short ∙ run
