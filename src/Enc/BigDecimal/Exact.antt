-- ===== src/Enc/BigDecimal/Exact.antt =====
-- src/encode.c, `decode_dec_str` and `bin_int_sub1`: the bytes are the number that the digits read
-- from the left give, and its predecessor.
use mathlib.Core.List.{reverse, reverse-cons, reverse-reverse}
use native.Mathlib.Nat.{pow-suc, mul_comm}
use php_ext_cbor.Base.{
  ℕ, zero, suc, ◌+◌, ◌-◌, ◌*◌, ◌/◌, ◌^◌, ◌<◌, ◌≤◌, ◌≡◌, ◌≢◌, inl, inr, refl, ap, sym, ◌∙◌, false,
  Option, none, some, List, [], ◌∷◌, ◌++◌, ltb, ◌==◌, if◌then◌else◌, length, replicate, get_or,
  Bool-cases, arith, length-replicate,
}
use php_ext_cbor.Enc.BigDecimal.{dec_char_to_int, strip_zeros, out_size, decode_dec_str}
use php_ext_cbor.Enc.BigDecimal.Sums.{le_value, AllBytes, power_pos}
use php_ext_cbor.Enc.BigDecimal.Rounds.{
  number, digit_count, Holds, Reads, too_long, read, dec_rounds-Reads, number_skip, number_digit,
  regrouped,
}

-- The number in a string of bytes, the highest first.
abbrev pub be_value : List ℕ → ℕ
be_value s = le_value (reverse s)

-- The number that the digits of a text give behind `n`, from the left; other bytes are passed over.
unfoldable pub read_number : ℕ → List ℕ → ℕ
unfolding dec_char_to_int
read_number n [] = n
read_number n (c ∷ s) =
    let d = dec_char_to_int c in
    let behind = read_number n s in
    let more = read_number (n * 10 + d) s in if ltb 9 d then behind else more

le_value-zero : (bs : List ℕ) → le_value (bs ++ 0 ∷ []) ≡ le_value bs
unfolding le_value
le_value-zero [] = refl
le_value-zero (b ∷ bs) = ap (λ (v : ℕ). b + 256 * v) (le_value-zero bs)

-- The zeros in front count for nothing.
strip_zeros-value :
    (s : List ℕ) → (be_value (strip_zeros s) ≡ be_value s) × (get_or (strip_zeros s) 0 1 ≢ 0)
unfolding strip_zeros
strip_zeros-value [] = (refl, λ e. absurd (omega arith))
strip_zeros-value (c ∷ s) = elim (Bool-cases (c == 0)) [
  | inl e ↦
      let nought : c ≡ 0 = ground arith in
      let (v, front) = strip_zeros-value s in
      rw e (
        v
            ∙ sym (le_value-zero (reverse s))
            ∙ ap le_value
                (ap (λ (d : ℕ). reverse s ++ d ∷ []) (sym nought) ∙ sym (reverse-cons c s)),
        front,
      )
  | inr e ↦ rw e (refl, ground arith)
]

zeros-value : (n : ℕ) → (le_value (replicate n 0) ≡ 0) × AllBytes (replicate n 0)
unfolding le_value
zeros-value zero = (refl, tt)
zeros-value (suc n) = let (v, b) = zeros-value n in (omega arith, (omega arith, b))

first_power : (n : ℕ) → Holds (n + 1) 1 (record { zeros = 0; places = 1 ∷ [] })
unfolding le_value
first_power n = record {
  value = omega arith;
  fits = omega (
    arith,
    power_pos n,
    pow-suc 256 n,
    ap (λ (k : ℕ). 256 ^ k) (let e : n + 1 ≡ suc n = omega arith in e),
  );
  room = omega arith;
}

number_none : (w : ℕ) → (number w [] ≡ 0) × (digit_count [] ≡ 0)
unfolding number digit_count
number_none w = (refl, refl)

count_digit :
    (c : ℕ) (s : List ℕ)
    → ltb 9 (dec_char_to_int c) ≡ false
    → digit_count (c ∷ s) ≡ digit_count s + 1
unfolding digit_count
count_digit c s e = rw e refl

-- A text behind another weighs more.
pub number-append :
    (s t : List ℕ) (w : ℕ)
    → (number w (s ++ t) ≡ number w s + number (w * 10 ^ digit_count s) t)
      × (digit_count (s ++ t) ≡ digit_count s + digit_count t)
number-append [] t w =
    let (nought, no_digit) = number_none w in
    (
      rw (nought, no_digit)
          (ap (λ (v : ℕ). number v t) (let e : w ≡ w * 1 = omega arith in e)
            ∙ (let e : number (w * 1) t ≡ 0 + number (w * 1) t = omega arith in e)),
      omega arith,
    )
number-append (a ∷ s) t w = elim (Bool-cases (ltb 9 (dec_char_to_int a))) [
  | inl e ↦
      let (p, q) = number_skip w a (s ++ t) e in
      let (p', q') = number_skip w a s e in
      let (sum, count) = number-append s t w in (rw (p, p', q') sum, rw (q, q') count)
  | inr e ↦
      let (sum, count) = number-append s t (10 * w) in
      let (p', q') = number_digit w a s e in
      let weight : w * 10 ^ digit_count (a ∷ s) ≡ 10 * w * 10 ^ digit_count s =
        ap (λ (v : ℕ). w * v) q' ∙ regrouped w (10 ^ digit_count s) in
      (
        rw (weight, p') (omega (arith, (number_digit w a (s ++ t) e).0, sum)),
        omega (arith, count, count_digit a (s ++ t) e, count_digit a s e),
      )
]

forward : (n d q : ℕ) → (n * 10 + d) * q ≡ n * (10 * q) + d * q
forward n d q = grind arith

one_more :
    (n c k : ℕ)
    → ltb 9 (dec_char_to_int c) ≡ false
    → n * 10 ^ (k + digit_count (c ∷ [])) ≡ n * (10 * 10 ^ k)
one_more n c k e =
    ap (λ (j : ℕ). n * 10 ^ j)
      (let f : k + digit_count (c ∷ []) ≡ suc k =
          omega (arith, count_digit c [] e, (number_none 1).1) in
        f)
    ∙ ap (λ (v : ℕ). n * v) (pow-suc 10 k ∙ mul_comm (10 ^ k) 10)

-- The loop from the end adds up what is read from the left.
read_number-number :
    (s : List ℕ) (n : ℕ) → read_number n s ≡ n * 10 ^ digit_count (reverse s) + number 1 (reverse s)
unfolding read_number
read_number-number [] n =
    let (nought, no_digit) = number_none 1 in rw (nought, no_digit) (omega arith)
read_number-number (c ∷ s) n =
    let (sum, count) = number-append (reverse s) (c ∷ []) 1 in
    elim (Bool-cases (ltb 9 (dec_char_to_int c))) [
      | inl e ↦
          let (p, q) = number_skip (1 * 10 ^ digit_count (reverse s)) c [] e in
          let same : (number 1 (reverse s ++ c ∷ []) ≡ number 1 (reverse s))
              × (digit_count (reverse s ++ c ∷ []) ≡ digit_count (reverse s)) =
            omega (arith, number_none (1 * 10 ^ digit_count (reverse s)), sum, count, p, q) in
          rw (e, reverse-cons c s, same.0, same.1) (read_number-number s n)
      | inr e ↦
          let k = digit_count (reverse s) in
          let (p, q) = number_digit (1 * 10 ^ k) c [] e in
          rw (e, reverse-cons c s, sum, count)
            (omega (
              arith,
              read_number-number s (n * 10 + dec_char_to_int c),
              p,
              forward n (dec_char_to_int c) (10 ^ k),
              (number_none (10 * (1 * 10 ^ k))).0,
              one_more n c k e,
            ))
    ]

-- What the function returns for a text of `len` bytes with `places` digits that stand for `n`.
pub data Decodes (len places n : ℕ) : Option (List ℕ) → Type 0 where
  no_room : 256 ^ out_size len ≤ 10 ^ places → Decodes len places n none
  decoded :
      (r : List ℕ)
      → be_value r ≡ n
      → get_or r 0 1 ≢ 0
      → 10 ^ places < 256 ^ out_size len
      → Decodes len places n (some r)

Reads-Decodes :
    (len n : ℕ) (cs : List ℕ) {o : Option (List ℕ)}
    → n ≡ number 1 cs
    → Reads (out_size len) 1 0 cs o
    → Decodes len
        (digit_count cs)
        n
        (elim o [ none ↦ none | some out ↦ some (strip_zeros (reverse out)) ])
Reads-Decodes len n cs e (too_long h) = no_room (omega arith)
Reads-Decodes len n cs e (read r v l b f) =
    let (value, front) = strip_zeros-value (reverse r) in
    decoded (strip_zeros (reverse r)) (omega (arith, value, ap le_value (reverse-reverse r), v, e))
      front (omega arith)

-- The bytes of a decimal text below 2^31 bytes are the number that is read from the left, without zeros in front, and
-- the function gives up exactly where the power of ten behind the digits does not fit the buffer.
pub decode_dec_str-exact :
    (s : List ℕ)
    → length s < 2 ^ 31
    → Decodes (length s) (digit_count (reverse s)) (read_number 0 s) (decode_dec_str s)
unfolding decode_dec_str
decode_dec_str-exact s short =
    let out_max = out_size (length s) in
    let (nothing, bytes) = zeros-value out_max in
    let long : ltb ((2 ^ 64 - 1) / 415241) (length s) ≡ false = ground arith in
    rw long (
      Reads-Decodes (length s) (read_number 0 s) (reverse s) (omega (arith, read_number-number s 0))
        (rw nothing at (
          dec_rounds-Reads out_max 1 (replicate out_max 0) (record { zeros = 0; places = 1 ∷ [] })
            (reverse s) (length-replicate {A = ℕ} out_max 0) bytes
            (first_power (415241 * length s / 1000000)) (omega (arith, nothing)))))
