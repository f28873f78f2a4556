-- ===== src/Enc/Keys/Own.antt =====
-- src/encode.c, `convert_string_to_int`: a text that it converts is the decimal form of the integer.
use php_ext_cbor.Base.{
  ℕ, suc, ◌+◌, ◌-◌, ◌*◌, ◌%◌, ◌^◌, ◌<◌, ◌≤◌, ◌≡◌, ◌≢◌, ◌⊎◌, inl, inr, refl, ap, sym, ◌∙◌, Bool,
  true, false, ◌||◌, Option, none, some, List, [], ◌∷◌, ◌++◌, ltb, ◌==◌, if◌then◌else◌, length,
  get_or, Bool-cases, arith, length-append,
}
use php_ext_cbor.Decimal.{decimal, int_to_str}
use php_ext_cbor.Decimal.Laws.{read_digits, int_to_str-negative}
use php_ext_cbor.Decimal.Digits.{AllDigits, read_digits-ge, decimal-read_digits}
use php_ext_cbor.Enc.Keys.{
  set_last, dec_loop, negative_result, unsigned_result, convert_negative, convert_string_to_int,
}
use php_ext_cbor.Enc.Keys.Exact.{
  dec_loop-inverse, set_last-append, last_of, AllDigits-last, front-last, read-last,
  int_to_str-natural,
}

-- The branch that gave a result.
chosen :
    {A : Type 0} (a b c d : Bool) (w x y : Option A) {r : A}
    → (if a then none else if b then none else if c then w else if d then x else y) ≡ some r
    → (a ≡ false)
      × (b ≡ false)
      × (((c ≡ true) × (w ≡ some r))
          ⊎ ((c ≡ false) × (((d ≡ true) × (x ≡ some r)) ⊎ ((d ≡ false) × (y ≡ some r)))))
chosen true b c d w x y h = cc
chosen false true c d w x y h = cc
chosen false false true d w x y h = (refl, refl, inl (refl, h))
chosen false false false true w x y h = (refl, refl, inr (refl, inl (refl, h)))
chosen false false false false w x y h = (refl, refl, inr (refl, inr (refl, h)))

-- The loop from its start.
from_start :
    (s : List ℕ) (v : ℕ)
    → dec_loop 0 0 s ≡ some v
    → AllDigits s × (v ≡ read_digits 0 s) × (v < 2 ^ 64)
from_start s v h = dec_loop-inverse s 0 0 v (λ le. omega arith) (omega arith) h

-- A numeral is the decimal form of its number, which is not 0.
own_text :
    (s : List ℕ)
    → AllDigits s
    → 0 < length s
    → get_or s 0 0 ≢ b'0'
    → length s ≤ 21
    → read_digits 0 s < 10 ^ 20
    → (decimal (read_digits 0 s) ≡ s) × (0 < read_digits 0 s)
unfolding read_digits
own_text [] all long front short small = absurd (omega arith)
own_text (c ∷ s) all long front short small = (
  decimal-read_digits c s all front small (omega arith),
  (let pos : 0 < c - b'0' = ground arith in omega (arith, read_digits-ge (0 * 10 + (c - b'0')) s)),
)

unsigned-text :
    (s : List ℕ) (o : Option ℕ) {n : ℕ} {b : Bool}
    → dec_loop 0 0 s ≡ o
    → unsigned_result o ≡ some (n, b)
    → 0 < length s
    → get_or s 0 0 ≢ b'0'
    → length s ≤ 21
    → (n < 2 ^ 64) × (int_to_str n b ≡ s)
unsigned-text s none run h long front short = cc
unsigned-text s (some v) {n} {b} run h long front short =
    let (all, value, small) = from_start s v run in
    let same : n ≡ v = cc in
    let positive : b ≡ false = cc in
    rw (same, positive, value)
      (
        omega arith,
        int_to_str-natural (read_digits 0 s) ∙ (own_text s all long front short (omega arith)).0,
      )

snoc_view : (c : ℕ) (s : List ℕ) → (t : List ℕ) × (d : ℕ) × (c ∷ s ≡ t ++ d ∷ [])
snoc_view c [] = ([], c, refl)
snoc_view c (d ∷ s) =
    let (t, e, same) = snoc_view d s in (c ∷ t, e, ap (λ (r : List ℕ). c ∷ r) same)

guarded :
    {A : Type 0} (c : ℕ) (o : Option A) {r : A}
    → (if (c == b'-') || (c == b'0') || (c == 0) then none else o) ≡ some r
    → (c ≢ b'0') × (o ≡ some r)
guarded c o h = elim (Bool-cases ((c == b'-') || (c == b'0') || (c == 0))) [
  | inl e ↦ cc (rw e at h)
  | inr e ↦ ((λ z. differs z e), rw e at h)
]
  where
    differs : c ≡ b'0' → ((c == b'-') || (c == b'0') || (c == 0)) ≡ false → ⊥
    differs z e = cc (rw z at e)

negative_parts :
    (fix : Bool) (o : Option ℕ) {n : ℕ} {b : Bool}
    → negative_result fix o ≡ some (n, b)
    → (v : ℕ) × (o ≡ some v) × (n ≡ (if fix then v else (v + 2 ^ 64 - 1) % 2 ^ 64)) × (b ≡ true)
negative_parts fix none h = cc
negative_parts fix (some v) h = (v, refl, cc, cc)

module _ (t : List ℕ) (n : ℕ) where
  -- The last digit was 6.
  mended-text :
      (v : ℕ)
      → dec_loop 0 0 (t ++ b'5' ∷ []) ≡ some v
      → get_or (t ++ b'5' ∷ []) 0 0 ≢ b'0'
      → length (t ++ b'6' ∷ []) ≤ 20
      → n ≡ v
      → (n < 2 ^ 64) × (int_to_str n true ≡ b'-' ∷ (t ++ b'6' ∷ []))
  mended-text v run front short same =
      let (all, value, small) = from_start (t ++ b'5' ∷ []) v run in
      let next : n + 1 ≡ read_digits 0 (t ++ b'6' ∷ []) =
        omega (arith, read-last t b'5', read-last t b'6') in
      let own =
        own_text (t ++ b'6' ∷ []) (AllDigits-last t b'5' b'6' all (omega arith))
          (omega (arith, length-append t (b'6' ∷ [])))
          (front-last t b'5' b'6' front (λ e. absurd (omega arith))) (omega arith) (omega arith) in
      (
        omega arith,
        int_to_str-negative n (omega arith)
            ∙ ap (λ (k : ℕ). b'-' ∷ decimal k) next
            ∙ ap (λ (r : List ℕ). b'-' ∷ r) own.0,
      )

  -- It was another.
  plain-text :
      (s : List ℕ) (v : ℕ)
      → dec_loop 0 0 s ≡ some v
      → get_or s 0 0 ≢ b'0'
      → 0 < length s
      → length s ≤ 20
      → n ≡ (v + 2 ^ 64 - 1) % 2 ^ 64
      → (n < 2 ^ 64) × (int_to_str n true ≡ b'-' ∷ s)
  plain-text s v run front long short same =
      let (all, value, small) = from_start s v run in
      let own = own_text s all long front (omega arith) (omega arith) in
      let next : n + 1 ≡ read_digits 0 s = omega (arith, own.1) in
      (
        omega arith,
        int_to_str-negative n (omega arith)
            ∙ ap (λ (k : ℕ). b'-' ∷ decimal k) next
            ∙ ap (λ (r : List ℕ). b'-' ∷ r) own.0,
      )

-- What stands behind the minus sign.
negative-text :
    (t : List ℕ) (d : ℕ) {n : ℕ} {b : Bool}
    → convert_negative (t ++ d ∷ []) ≡ some (n, b)
    → length (t ++ d ∷ []) ≤ 20
    → (n < 2 ^ 64) × (int_to_str n b ≡ b'-' ∷ (t ++ d ∷ []))
unfolding convert_negative
negative-text t d {n} {b} h short = elim (Bool-cases (d == b'6')) [
  | inl six ↦
      let digit : d ≡ b'6' = ground arith in
      let shape : set_last b'5' (t ++ d ∷ []) ≡ t ++ b'5' ∷ [] = set_last-append t d b'5' in
      let (front, result) = guarded _ _ (rw (last_of t d, six, shape) at h) in
      let (v, run, same, negative) = negative_parts true _ result in
      rw (negative, digit)
        (mended-text t n v run front
          (omega (arith, length-append t (d ∷ []), length-append t (b'6' ∷ []))) same)
  | inr other ↦
      let (front, result) = guarded _ _ (rw (last_of t d, other) at h) in
      let (v, run, same, negative) = negative_parts false _ result in
      rw negative (
        plain-text t n (t ++ d ∷ []) v run front (omega (arith, length-append t (d ∷ []))) short
          same)
]

abbrev zero_result : List ℕ → Option (ℕ × Bool)
zero_result s = if length s == 1 then some (0, false) else none

zero-text :
    (s : List ℕ) {n : ℕ} {b : Bool}
    → zero_result (b'0' ∷ s) ≡ some (n, b)
    → (n < 2 ^ 64) × (int_to_str n b ≡ b'0' ∷ s)
unfolding int_to_str
zero-text [] {n} {b} h =
    let nought : n ≡ 0 = cc in
    let positive : b ≡ false = cc in rw (nought, positive) (omega arith, refl)
zero-text (d ∷ s) h =
    let more : (suc (suc (length s)) == 1) ≡ false = ground arith in cc (rw more at h)

nothing : convert_negative [] ≡ none
unfolding convert_negative
nothing = refl

minus-text :
    (s : List ℕ) {n : ℕ} {b : Bool}
    → convert_negative s ≡ some (n, b)
    → length s ≤ 20
    → (n < 2 ^ 64) × (int_to_str n b ≡ b'-' ∷ s)
minus-text [] h short = cc (sym nothing ∙ h)
minus-text (c ∷ s) h short =
    let (t, d, same) = snoc_view c s in
    let (small, own) =
      negative-text t d (rw same at h) (omega (arith, ap (λ (r : List ℕ). length r) same)) in
    (small, own ∙ ap (λ (r : List ℕ). b'-' ∷ r) (sym same))

-- A text that is converted is the text of the integer as `cbor_int_to_str` writes it, and the integer
-- has 64 bits and a sign.
pub int_to_str-convert_string_to_int :
    (s : List ℕ) {n : ℕ} {b : Bool}
    → convert_string_to_int s ≡ some (n, b)
    → (n < 2 ^ 64) × (int_to_str n b ≡ s)
unfolding convert_string_to_int
int_to_str-convert_string_to_int [] h = cc
int_to_str-convert_string_to_int (c ∷ s) {n} {b} h =
    let (range, size, way) =
      chosen (ltb c b'-' || ltb b'9' c) (ltb 21 (length (c ∷ s))) (c == b'0') (c == b'-')
        (zero_result (c ∷ s)) (convert_negative s) (unsigned_result (dec_loop 0 0 (c ∷ s))) h in
    let short : length (c ∷ s) ≤ 21 = ground (arith, size) in
    elim way [
      | inl (nought, result) ↦
          let digit : c ≡ b'0' = ground (arith, nought) in rw digit (zero-text s result)
      | inr (nonzero, inl (minus, result)) ↦
          let sign : c ≡ b'-' = ground (arith, minus) in rw sign (minus-text s result (omega arith))
      | inr (nonzero, inr (plus, result)) ↦
          unsigned-text (c ∷ s) (dec_loop 0 0 (c ∷ s)) refl result (omega arith)
            (λ e. cc (rw e at nonzero)) short
    ]
