-- ===== src/Enc/BigDecimal/Short.antt =====
-- src/encode.c, `decode_dec_str`: which texts fit into its buffers.
use mathlib.Core.List.{reverse, reverse-cons, reverse-reverse}
use native.Mathlib.Nat.{pow-suc}
use php_ext_cbor.Base.{
  ℕ, zero, suc, ◌+◌, ◌^◌, ◌-◌, ◌<◌, ◌≤◌, ◌≡◌, ◌≢◌, inl, inr, refl, ap, ◌∙◌, true, Option, none,
  some, List, [], ◌∷◌, ltb, ◌==◌, length, get_or, Bool-cases, arith, leb→le, ltb→lt, length-append,
}
use php_ext_cbor.Base.Bits.{passes_under, passes_under_at}
use php_ext_cbor.Enc.BigDecimal.{dec_char_to_int, out_size, decode_dec_str, borrow, bin_int_sub1}
use php_ext_cbor.Enc.BigDecimal.Sums.{le_value, AllBytes}
use php_ext_cbor.Enc.BigDecimal.Rounds.{digit_count}
use php_ext_cbor.Enc.BigDecimal.Exact.{
  number-append, be_value, read_number, Decodes, no_room, decoded, decode_dec_str-exact,
}

digit_count-le : (s : List ℕ) → digit_count s ≤ length s
unfolding digit_count
digit_count-le [] = omega arith
digit_count-le (c ∷ s) = elim (Bool-cases (ltb 9 (dec_char_to_int c))) [
  | inl e ↦ rw e (omega (arith, digit_count-le s))
  | inr e ↦ rw e (omega (arith, digit_count-le s))
]

length_back : (s : List ℕ) → length (reverse s) ≡ length s
length_back [] = refl
length_back (c ∷ s) =
    rw (reverse-cons c s) (omega (arith, length-append (reverse s) (c ∷ []), length_back s))

digit_count-reverse : (s : List ℕ) → digit_count (reverse s) ≡ digit_count s
digit_count-reverse [] = refl
digit_count-reverse (c ∷ s) = rw (reverse-cons c s) (
    omega (
      arith,
      (number-append (reverse s) (c ∷ []) 1).1,
      (number-append (c ∷ []) s 1).1,
      digit_count-reverse s,
    ))

power_mono : (a b : ℕ) → 10 ^ a ≤ 10 ^ (a + b)
power_mono a zero = let e : a + 0 ≡ a = omega arith in rw e (omega arith)
power_mono a (suc b) =
    let e : a + suc b ≡ suc (a + b) = omega arith in
    rw (e, pow-suc 10 (a + b)) (omega (arith, power_mono a b))

room_table : passes_under 1001 (λ k. ltb (10 ^ k) (256 ^ out_size k)) ≡ true
unfolding passes_under
room_table = refl

has_room : (s : List ℕ) → length s ≤ 1000 → 10 ^ digit_count (reverse s) < 256 ^ out_size (length s)
has_room s short =
    let n = length s in
    let k = digit_count (reverse s) in
    let fewer : k ≤ n = omega (arith, digit_count-le (reverse s), length_back s) in
    let whole : k + (n - k) ≡ n = omega arith in
    omega (
      arith,
      ltb→lt _ _ (passes_under_at 1001 _ n room_table (omega arith)),
      power_mono k (n - k),
      ap (λ (j : ℕ). 10 ^ j) whole,
    )

found :
    (len places n : ℕ) {o : Option (List ℕ)}
    → 10 ^ places < 256 ^ out_size len
    → Decodes len places n o
    → (r : List ℕ) × (o ≡ some r) × (be_value r ≡ n) × (get_or r 0 1 ≢ 0)
found len places n room (no_room h) = absurd (omega arith)
found len places n room (decoded r v f h) = (r, refl, v, f)

-- A text of at most 1000 bytes always has a result: the bytes, without zeros in front, of the number
-- that its digits give from the left.
pub decode_dec_str-short :
    (s : List ℕ)
    → length s ≤ 1000
    → (r : List ℕ) × (decode_dec_str s ≡ some r)
      × (be_value r ≡ read_number 0 s)
      × (get_or r 0 1 ≢ 0)
decode_dec_str-short s short =
    found (length s) (digit_count (reverse s)) (read_number 0 s) (has_room s short)
      (decode_dec_str-exact s (omega arith))

big_power : 256 ^ 11432 ≤ 10 ^ 27531
big_power = leb→le (256 ^ 11432) (10 ^ 27531) refl

gives_up : (n : ℕ) {o : Option (List ℕ)} → Decodes 27531 27531 n o → o ≡ none
gives_up n (no_room h) = refl
gives_up n (decoded r v f h) = absurd (omega (arith, big_power))

-- A number of 27531 digits has no result, whatever the digits are.
pub decode_dec_str-no_room :
    (s : List ℕ) → length s ≡ 27531 → digit_count s ≡ 27531 → decode_dec_str s ≡ none
decode_dec_str-no_room s e d =
    gives_up (read_number 0 s)
      (rw (e, digit_count-reverse s, d) at (decode_dec_str-exact s (omega arith)))

borrow-value :
    (bs : List ℕ) → AllBytes bs → 0 < le_value bs → le_value (borrow bs) + 1 ≡ le_value bs
unfolding borrow le_value
borrow-value [] p h = absurd (omega arith)
borrow-value (c ∷ []) p h = elim (Bool-cases (c == 1)) [
  | inl e ↦ rw e (ground arith)
  | inr e ↦ rw e (omega (arith, p.0))
]
borrow-value (c ∷ d ∷ cs) p h = elim (Bool-cases (c == 0)) [
  | inl e ↦
      let nought : c ≡ 0 = ground arith in
      rw e (omega (arith, borrow-value (d ∷ cs) p.1 (omega arith)))
  | inr e ↦ rw e (let some_of : 0 < c = ground arith in omega arith)
]

-- For bytes of a number that is not 0, the bytes are those of the number before it.
pub bin_int_sub1-value :
    (s : List ℕ)
    → AllBytes (reverse s)
    → 0 < be_value s
    → be_value (bin_int_sub1 s) + 1 ≡ be_value s
unfolding bin_int_sub1
bin_int_sub1-value s bytes h =
    ap (λ (bs : List ℕ). le_value bs + 1) (reverse-reverse (borrow (reverse s)))
    ∙ borrow-value (reverse s) bytes h
