-- ===== src/Enc/BigDecimal/Rounds.antt =====
-- src/encode.c, the loop of `decode_dec_str` over the digits, against the number that they stand for.
use native.Mathlib.Nat.{pow-suc, mul_comm}
use native.Mathlib.Numerals.{add-one}
use php_ext_cbor.Base.{
  ℕ, zero, suc, ◌+◌, ◌-◌, ◌*◌, ◌^◌, ◌<◌, ◌≤◌, ◌≡◌, inl, inr, refl, ap, sym, ◌∙◌, true, false,
  Option, none, some, List, [], ◌∷◌, ltb, ◌==◌, if◌then◌else◌, length, replicate, Bool-cases, arith,
  length-append, length-replicate,
}
use php_ext_cbor.Enc.BigDecimal.{
  Multi, dec_char_to_int, skip_zeros, all_places, add_digit, next_multi, dec_rounds, on_some,
}
use php_ext_cbor.Enc.BigDecimal.Sums.{
  le_value, AllBytes, Sums, over, sum, Grows, grown, add_times-Sums, times_ten-Grows,
  skip_zeros-places, le_value-zeros, power_pos, retotal, regrow,
}

-- The number of the digits, the first of which weighs `w`; other bytes are passed over.
unfoldable pub number : ℕ → List ℕ → ℕ
unfolding dec_char_to_int
number w [] = 0
number w (c ∷ cs) =
    let n = dec_char_to_int c in
    let behind = number w cs in
    let more = number (10 * w) cs in if ltb 9 n then behind else n * w + more

unfoldable pub digit_count : List ℕ → ℕ
unfolding dec_char_to_int
digit_count [] = 0
digit_count (c ∷ cs) = digit_count cs + (if ltb 9 (dec_char_to_int c) then 0 else 1)

-- The power of ten in its buffer.
pub record Holds (out_max w : ℕ) (multi : Multi) : Type 0 where
  pub value : le_value (all_places multi) ≡ w
  pub fits : w < 256 ^ out_max
  pub room : multi.zeros + length multi.places ≤ out_max

pub power_of_ten_pos : (k : ℕ) → 0 < 10 ^ k
power_of_ten_pos zero = omega arith
power_of_ten_pos (suc k) = omega (arith, power_of_ten_pos k, pow-suc 10 k)

pub regrouped : (w q : ℕ) → w * (10 * q) ≡ 10 * w * q
regrouped w q = grind arith

number_nil : (n w : ℕ) → n ≡ n + number w []
unfolding number
number_nil n w = omega arith

count_nil : (out_max w : ℕ) → w < 256 ^ out_max → w * 10 ^ digit_count [] < 256 ^ out_max
unfolding digit_count
count_nil out_max w h = omega arith

-- The outcome of the rounds: a power of ten does not fit, or the sum with every power that fits.
pub data Reads (out_max w start : ℕ) (cs : List ℕ) : Option (List ℕ) → Type 0 where
  too_long : 256 ^ out_max ≤ w * 10 ^ digit_count cs → Reads out_max w start cs none
  read :
      (r : List ℕ)
      → le_value r ≡ start + number w cs
      → length r ≡ out_max
      → AllBytes r
      → w * 10 ^ digit_count cs < 256 ^ out_max
      → Reads out_max w start cs (some r)

add_digit-Sums :
    (n : ℕ) (out : List ℕ) (w : ℕ) (multi : Multi)
    → AllBytes out
    → Holds (length out) w multi
    → Sums (length out) (le_value out + n * w) (add_digit n out multi)
unfolding add_digit
add_digit-Sums n out w multi bytes h = elim (Bool-cases (n == 0)) [
  | inl e ↦
      let nought : n ≡ 0 = ground arith in
      rw e (sum out (omega (arith, ap (λ (k : ℕ). k * w) nought)) refl bytes)
  | inr e ↦ rw e (
      retotal (omega (arith, ap (λ (v : ℕ). n * v) h.value)) (
        add_times-Sums n out (all_places multi) 0 bytes (
          omega (
            arith,
            h.room,
            length-append (replicate multi.zeros 0) multi.places,
            length-replicate {A = ℕ} multi.zeros 0,
          ))))
]

data Tens (out_max w : ℕ) : Option Multi → Type 0 where
  no_room : 256 ^ out_max ≤ 10 * w → Tens out_max w none
  ten : (multi : Multi) → Holds out_max (10 * w) multi → Tens out_max w (some multi)

power_add : (z k : ℕ) → 256 ^ (z + k) ≡ 256 ^ z * 256 ^ k
power_add zero k =
    ap (λ (j : ℕ). 256 ^ j) (let e : 0 + k ≡ k = omega arith in e)
    ∙ (let e : 256 ^ k ≡ 1 * 256 ^ k = omega arith in e)
power_add (suc z) k =
    ap (λ (j : ℕ). 256 ^ j) (let e : suc z + k ≡ suc (z + k) = omega arith in e)
    ∙ pow-suc 256 (z + k)
    ∙ ap (λ (q : ℕ). q * 256) (power_add z k)
    ∙ regroup (256 ^ z) (256 ^ k)
    ∙ ap (λ (q : ℕ). q * 256 ^ k) (sym (pow-suc 256 z))
  where
    regroup : (a b : ℕ) → a * b * 256 ≡ a * 256 * b
    regroup a b = grind arith

ten_times : (q v : ℕ) → q * (10 * v) ≡ 10 * (q * v)
ten_times q v = grind arith

spread_sum : (q a d : ℕ) → q * (a + d) ≡ q * a + q * d
spread_sum q a d = grind arith

pub times_mono : (q a b : ℕ) → a ≤ b → q * a ≤ q * b
times_mono q a b h = omega (
  arith,
  spread_sum q a (b - a),
  ap (λ (t : ℕ). q * t) (let e : a + (b - a) ≡ b = omega arith in e),
)

times_mono_lt : (q a b : ℕ) → 0 < q → a < b → q * a < q * b
times_mono_lt q a b pos h = omega (arith, times_mono q (a + 1) b (omega arith), spread_sum q a 1)

next_from :
    (out_max z v k : ℕ) {o : Option (List ℕ)}
    → out_max ≡ z + k
    → Grows k (10 * v) o
    → Tens out_max (256 ^ z * v) (elim o [ none ↦ none | some places ↦ some (skip_zeros z places) ])
next_from out_max z v k e (Grows.over h) = no_room (
    omega (
      arith,
      ap (λ (j : ℕ). 256 ^ j) e,
      power_add z k,
      times_mono (256 ^ z) (256 ^ k) (10 * v) h,
      ten_times (256 ^ z) v,
    ))
next_from out_max z v k e (grown r value short small) =
    let (places, room) = skip_zeros-places z r in
    ten (skip_zeros z r) (record {
      value = places ∙ ap (λ (t : ℕ). 256 ^ z * t) value ∙ ten_times (256 ^ z) v;
      fits = omega (
        arith,
        times_mono_lt (256 ^ z) (10 * v) (256 ^ k) (power_pos z) small,
        ten_times (256 ^ z) v,
        ap (λ (j : ℕ). 256 ^ j) e,
        power_add z k,
      );
      room = omega arith;
    })

next_multi-Tens :
    (out_max w : ℕ) (multi : Multi)
    → Holds out_max w multi
    → Tens out_max w (next_multi out_max multi)
unfolding next_multi
next_multi-Tens out_max w multi h =
    let k = length multi.places + (out_max - (multi.zeros + length multi.places)) in
    let whole : 256 ^ multi.zeros * le_value multi.places ≡ w =
      sym (le_value-zeros multi.zeros multi.places) ∙ h.value in
    rw (sym whole) (
      next_from out_max multi.zeros (le_value multi.places) k (omega (arith, h.room)) (
        regrow refl (omega arith)
          (times_ten-Grows (out_max - (multi.zeros + length multi.places)) 0 multi.places)))

-- What a first byte adds to the number and to the count of digits.
pub number_skip :
    (w c : ℕ) (cs : List ℕ)
    → ltb 9 (dec_char_to_int c) ≡ true
    → (number w (c ∷ cs) ≡ number w cs) × (digit_count (c ∷ cs) ≡ digit_count cs)
unfolding number digit_count
number_skip w c cs e = (rw e refl, rw e (omega arith))

pub number_digit :
    (w c : ℕ) (cs : List ℕ)
    → ltb 9 (dec_char_to_int c) ≡ false
    → (number w (c ∷ cs) ≡ dec_char_to_int c * w + number (10 * w) cs)
      × (10 ^ digit_count (c ∷ cs) ≡ 10 * 10 ^ digit_count cs)
unfolding number digit_count
number_digit w c cs e = (
  rw e refl,
  rw e (
      ap (λ (k : ℕ). 10 ^ k) (add-one (digit_count cs))
      ∙ pow-suc 10 (digit_count cs)
      ∙ mul_comm (10 ^ digit_count cs) 10),
)

module _ (out_max w start c : ℕ) (cs : List ℕ) where
  -- A byte that is no digit.
  skipped :
      {o : Option (List ℕ)}
      → ltb 9 (dec_char_to_int c) ≡ true
      → Reads out_max w start cs o
      → Reads out_max w start (c ∷ cs) o
  skipped e (too_long h) = let (same, count) = number_skip w c cs e in too_long (rw count h)
  skipped e (read r v l b f) =
      let (same, count) = number_skip w c cs e in read r (rw same v) l b (rw count f)

  -- A digit whose successor's weight is too large.
  stopped :
      ltb 9 (dec_char_to_int c) ≡ false
      → 256 ^ out_max ≤ 10 * w
      → Reads out_max w start (c ∷ cs) none
  stopped e h = too_long (
      rw (number_digit w c cs e).1
        (grows (10 ^ digit_count cs) (power_of_ten_pos (digit_count cs))))
    where
      grows : (q : ℕ) → 0 < q → 256 ^ out_max ≤ w * (10 * q)
      grows q pos = omega (arith, h, regrouped w q, times_mono (10 * w) 1 q (omega arith))

  counted :
      (below : ℕ) {o : Option (List ℕ)}
      → ltb 9 (dec_char_to_int c) ≡ false
      → below ≡ start + dec_char_to_int c * w
      → Reads out_max (10 * w) below cs o
      → Reads out_max w start (c ∷ cs) o
  counted below e same (too_long h) =
      too_long (rw (number_digit w c cs e).1 (omega (arith, regrouped w (10 ^ digit_count cs))))
  counted below e same (read r v l b f) =
      let (total, count) = number_digit w c cs e in
      read r (omega arith) l b (rw count (omega (arith, regrouped w (10 ^ digit_count cs))))

-- The digits are 9 at most.
nine_times : (n w : ℕ) → n ≤ 9 → n * w ≤ 9 * w
nine_times n w h = omega (arith, times_mono w n 9 h, mul_comm w n, mul_comm w 9)

-- One round on a digit, with the rounds that follow as an argument.
digit_round :
    (out_max w : ℕ) (out : List ℕ) (c : ℕ) (cs : List ℕ)
    → ltb 9 (dec_char_to_int c) ≡ false
    → le_value out < w
    → ((r : List ℕ) (multi : Multi)
        → length r ≡ out_max
        → AllBytes r
        → Holds out_max (10 * w) multi
        → le_value r < 10 * w
        → Reads out_max (10 * w) (le_value r) cs (dec_rounds out_max r multi cs))
    → {o : Option (List ℕ)} {m : Option Multi}
    → Sums out_max (le_value out + dec_char_to_int c * w) o
    → Tens out_max w m
    → Reads out_max w
        (le_value out)
        (c ∷ cs)
        (on_some o λ out. on_some m λ multi. dec_rounds out_max out multi cs)
digit_round out_max w out c cs e low rest sums tens = by_case sums tens
  where
    small : le_value out + dec_char_to_int c * w < 10 * w
    small = omega (arith, low, nine_times (dec_char_to_int c) w (ground (arith, e)))

    by_case :
        {o : Option (List ℕ)} {m : Option Multi}
        → Sums out_max (le_value out + dec_char_to_int c * w) o
        → Tens out_max w m
        → Reads out_max w
            (le_value out)
            (c ∷ cs)
            (on_some o λ out. on_some m λ multi. dec_rounds out_max out multi cs)
    by_case (over h) t = stopped out_max w (le_value out) c cs e (omega (arith, small))
    by_case (sum r v l b) (no_room h) = stopped out_max w (le_value out) c cs e h
    by_case (sum r v l b) (ten multi h) =
        counted out_max w (le_value out) c cs (le_value r) e v
          (rest r multi l b h (omega (arith, small)))

-- The rounds, if what was read before is below the weight of the next digit.
pub dec_rounds-Reads :
    (out_max w : ℕ) (out : List ℕ) (multi : Multi) (cs : List ℕ)
    → length out ≡ out_max
    → AllBytes out
    → Holds out_max w multi
    → le_value out < w
    → Reads out_max w (le_value out) cs (dec_rounds out_max out multi cs)
unfolding dec_rounds
dec_rounds-Reads out_max w out multi [] l b h low =
    read out (number_nil (le_value out) w) l b (count_nil out_max w h.fits)
dec_rounds-Reads out_max w out multi (c ∷ cs) l b h low =
    elim (Bool-cases (ltb 9 (dec_char_to_int c))) [
      | inl e ↦
          rw e (skipped out_max w _ c cs e (dec_rounds-Reads out_max w out multi cs l b h low))
      | inr e ↦ rw e (
          digit_round out_max w out c cs e low
            (λ r multi' l' b' h' low'. dec_rounds-Reads out_max (10 * w) r multi' cs l' b' h' low')
            (rw l at (add_digit-Sums (dec_char_to_int c) out w multi b (rw (sym l) at h)))
            (next_multi-Tens out_max w multi h))
    ]
