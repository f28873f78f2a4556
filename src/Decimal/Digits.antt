-- ===== src/Decimal/Digits.antt =====
-- Texts of digits: what a number's decimal form is made of, and that no other text without a zero in
-- front stands for the same number.
use native.Mathlib.Nat.{pow-suc, le_trans}
use php_ext_cbor.Base.{
  ℕ, zero, suc, ◌+◌, ◌-◌, ◌*◌, ◌/◌, ◌%◌, ◌^◌, ◌<◌, ◌≤◌, ◌≡◌, ◌≢◌, ◌⊎◌, inl, inr, refl, ap, sym, ◌∙◌,
  true, false, List, [], ◌∷◌, ◌++◌, ltb, length, get_or, Bool-cases, arith, append_assoc,
  append-nil, length-append,
}
use php_ext_cbor.Decimal.{digits, decimal}
use php_ext_cbor.Decimal.Laws.{read_digits}

abbrev pub IsDigit : ℕ → Type 0
IsDigit c = (b'0' ≤ c) × (c ≤ b'9')

abbrev pub AllDigits : List ℕ → Type 0
AllDigits [] = Unit {0}
AllDigits (c ∷ s) = IsDigit c × AllDigits s

pub AllDigits-append : (s t : List ℕ) → AllDigits s → AllDigits t → AllDigits (s ++ t)
AllDigits-append [] t p q = q
AllDigits-append (c ∷ s) t p q = (p.0, AllDigits-append s t p.1 q)

pub digits-AllDigits : (fuel n : ℕ) → AllDigits (digits fuel n)
unfolding digits
digits-AllDigits zero n = tt
digits-AllDigits (suc fuel) n = elim (Bool-cases (ltb n 10)) [
  | inl e ↦ rw (digits, e) (ground arith, tt)
  | inr e ↦
      rw (digits, e)
        (AllDigits-append (digits fuel (n / 10)) _ (digits-AllDigits fuel (n / 10))
          (omega arith, tt))
]

digits-one : (fuel n : ℕ) → n < 10 → digits (suc fuel) n ≡ (b'0' + n) ∷ []
unfolding digits
digits-one fuel n h = let e : ltb n 10 ≡ true = ground arith in rw (digits, e) refl

digits-step :
    (fuel n : ℕ) → 10 ≤ n → digits (suc fuel) n ≡ digits fuel (n / 10) ++ (b'0' + n % 10) ∷ []
unfolding digits
digits-step fuel n h = let e : ltb n 10 ≡ false = ground arith in rw (digits, e) refl

small_or_big : (n : ℕ) → (n < 10) ⊎ (10 ≤ n)
small_or_big n = elim (Bool-cases (ltb n 10)) [
  | inl e ↦ inl (ground arith)
  | inr e ↦ inr (ground arith)
]

-- The last digit, with what stands before it.
pub digits-last : (fuel n : ℕ) → (s : List ℕ) × (digits (suc fuel) n ≡ s ++ (b'0' + n % 10) ∷ [])
digits-last fuel n = elim (small_or_big n) [
  | inl h ↦ ([], digits-one fuel n h ∙ ap (λ (d : ℕ). (b'0' + d) ∷ []) (omega arith))
  | inr h ↦ (digits fuel (n / 10), digits-step fuel n h)
]

head-append : (s t : List ℕ) (d : ℕ) → 0 < length s → get_or (s ++ t) 0 d ≡ get_or s 0 d
head-append [] t d h = elim h [ ]
head-append (c ∷ s) t d h = refl

-- No zero stands in front.
pub digits-head :
    (fuel n : ℕ)
    → 0 < n
    → n < 10 ^ fuel
    → (0 < length (digits fuel n))
      × (get_or (digits fuel n) 0 0 ≢ b'0')
      × (length (digits fuel n) ≤ fuel)
unfolding digits
digits-head zero n h k = absurd (omega arith)
digits-head (suc fuel) n h k = elim (Bool-cases (ltb n 10)) [
  | inl e ↦ rw (digits, e) (omega arith, (λ q. absurd (omega arith)), omega arith)
  | inr e ↦
      let big : 10 ≤ n = ground arith in
      let (long, front, short) =
        digits-head fuel (n / 10) (omega arith) (omega (arith, pow-suc 10 fuel)) in
      rw (digits, e)
        (
          omega (arith, length-append (digits fuel (n / 10)) ((b'0' + n % 10) ∷ [])),
          (λ q. front (sym (head-append (digits fuel (n / 10)) _ 0 long) ∙ q)),
          omega (arith, length-append (digits fuel (n / 10)) ((b'0' + n % 10) ∷ [])),
        )
]

-- More fuel than a number has digits changes nothing.
pub digits-more :
    (fuel k n : ℕ) → n < 10 ^ suc fuel → digits (suc (fuel + k)) n ≡ digits (suc fuel) n
digits-more zero k n h = digits-one (0 + k) n (omega arith) ∙ sym (digits-one 0 n (omega arith))
digits-more (suc fuel) k n h = elim (small_or_big n) [
  | inl s ↦ digits-one (suc fuel + k) n s ∙ sym (digits-one (suc fuel) n s)
  | inr b ↦
      digits-step (suc fuel + k) n b
      ∙ ap (λ (j : ℕ). digits j (n / 10) ++ (b'0' + n % 10) ∷ [])
          (let e : suc fuel + k ≡ suc (fuel + k) = omega arith in e)
      ∙ ap (λ (t : List ℕ). t ++ (b'0' + n % 10) ∷ [])
          (digits-more fuel k (n / 10) (omega (arith, pow-suc 10 (suc fuel))))
      ∙ sym (digits-step (suc fuel) n b)
]

-- A text of digits behind a number above zero.
pub digits-read_digits :
    (s : List ℕ) (fuel n : ℕ)
    → 0 < n
    → AllDigits s
    → digits (fuel + length s) (read_digits n s) ≡ digits fuel n ++ s
unfolding read_digits
digits-read_digits [] fuel n h p =
    ap (λ (k : ℕ). digits k n) (omega arith) ∙ sym (append-nil (digits fuel n))
digits-read_digits (c ∷ s) fuel n h p =
    let m = n * 10 + (c - b'0') in
    let parts : (m / 10 ≡ n) × (b'0' + m % 10 ≡ c) = omega (arith, p.0.0, p.0.1) in
    ap (λ (k : ℕ). digits k (read_digits m s)) (omega arith)
    ∙ digits-read_digits s (suc fuel) m (omega arith) p.1
    ∙ ap (λ (t : List ℕ). t ++ s) (digits-step fuel m (omega arith))
    ∙ append_assoc (digits fuel (m / 10)) _ s
    ∙ ap (λ (k : ℕ). digits fuel k ++ ((b'0' + m % 10) ∷ s)) parts.0
    ∙ ap (λ (d : ℕ). digits fuel n ++ (d ∷ s)) parts.1

-- A number behind digits of another is no smaller.
pub read_digits-ge : (n : ℕ) (s : List ℕ) → n ≤ read_digits n s
unfolding read_digits
read_digits-ge n [] = omega arith
read_digits-ge n (c ∷ s) = omega (arith, read_digits-ge (n * 10 + (c - b'0')) s)

-- A text of digits stands for a number with no more digits.
pub read_digits-lt : (s : List ℕ) (n : ℕ) → AllDigits s → read_digits n s < (n + 1) * 10 ^ length s
unfolding read_digits
read_digits-lt [] n p = omega arith
read_digits-lt (c ∷ s) n p =
    scaled (10 ^ length s) (read_digits-lt s (n * 10 + (c - b'0')) p.1) (pow-suc 10 (length s))
  where
    scale : (q : ℕ) → c - b'0' ≤ 9 → (n * 10 + (c - b'0') + 1) * q ≤ (n + 1) * (q * 10)
    scale q d = grind arith

    scaled :
        (q : ℕ)
        → read_digits (n * 10 + (c - b'0')) s < (n * 10 + (c - b'0') + 1) * q
        → 10 ^ suc (length s) ≡ q * 10
        → read_digits (n * 10 + (c - b'0')) s < (n + 1) * 10 ^ suc (length s)
    scaled q h e = rw e (le_trans h (scale q (omega (arith, p.0.1))))

pub decimal-digits : (n : ℕ) → decimal n ≡ digits 20 n
unfolding decimal
decimal-digits n = refl

-- The decimal form of a number of up to 20 digits is the one text of digits for it with no zero in
-- front.
pub decimal-read_digits :
    (c : ℕ) (s : List ℕ)
    → AllDigits (c ∷ s)
    → c ≢ b'0'
    → read_digits 0 (c ∷ s) < 10 ^ 20
    → length s ≤ 20
    → decimal (read_digits 0 (c ∷ s)) ≡ c ∷ s
unfolding read_digits
decimal-read_digits c s p front small short =
    let n = read_digits (0 + (c - b'0')) s in
    let pos : 0 < c - b'0' = ground arith in
    decimal-digits n
    ∙ sym (digits-more 19 1 n (omega arith))
    ∙ ap (λ (k : ℕ). digits k n) (let e : 21 ≡ suc (length s + (20 - length s)) = omega arith in e)
    ∙ digits-more (length s) (20 - length s) n (omega (arith, read_digits-lt (c ∷ s) 0 p))
    ∙ ap (λ (k : ℕ). digits k n) (let e : suc (length s) ≡ 1 + length s = omega arith in e)
    ∙ ap (λ (d : ℕ). digits (1 + length s) (read_digits d s))
        (let e : 0 + (c - b'0') ≡ c - b'0' = omega arith in e)
    ∙ digits-read_digits s 1 (c - b'0') pos p.1
    ∙ ap (λ (t : List ℕ). t ++ s) (digits-one 0 (c - b'0') (omega (arith, p.0.0, p.0.1)))
    ∙ ap (λ (d : ℕ). d ∷ s) (omega (arith, p.0.0))
