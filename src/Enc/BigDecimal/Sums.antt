-- ===== src/Enc/BigDecimal/Sums.antt =====
-- src/encode.c, the loops of `decode_dec_str` over its buffers: what they add and multiply, and when
-- the result does not fit.
use native.Mathlib.Nat.{pow-suc}
use php_ext_cbor.Base.{
  ℕ, zero, suc, ◌+◌, ◌*◌, ◌/◌, ◌%◌, ◌^◌, ◌<◌, ◌≤◌, ◌≡◌, inl, inr, refl, ap, sym, ◌∙◌, true, Option,
  none, some, List, [], ◌∷◌, ◌++◌, ◌==◌, length, replicate, Bool-cases, arith,
}
use php_ext_cbor.Enc.BigDecimal.{
  add_carry, add_times, push_carry, times_ten, skip_zeros, all_places,
}

-- The number in a buffer, which is the list of its bytes from the last place.
unfoldable pub le_value : List ℕ → ℕ
le_value [] = 0
le_value (b ∷ bs) = b + 256 * le_value bs

abbrev pub AllBytes : List ℕ → Type 0
AllBytes [] = Unit {0}
AllBytes (b ∷ bs) = (b < 256) × AllBytes bs

-- A loop's outcome: a total that does not fit into `len` places, or the places with the total.
pub data Sums (len total : ℕ) : Option (List ℕ) → Type 0 where
  over : 256 ^ len ≤ total → Sums len total none
  sum : (r : List ℕ) → le_value r ≡ total → length r ≡ len → AllBytes r → Sums len total (some r)

pub le_value-lt : (bs : List ℕ) → AllBytes bs → le_value bs < 256 ^ length bs
unfolding le_value
le_value-lt [] p = omega arith
le_value-lt (b ∷ bs) p = omega (arith, le_value-lt bs p.1, pow-suc 256 (length bs), p.0)

-- One more place in front of which a loop goes on with the carry.
next_place :
    (len total t whole : ℕ) {o : Option (List ℕ)}
    → Sums len total o
    → whole ≡ t + 256 * total
    → t < 256
    → Sums (suc len) whole (elim o [ none ↦ none | some r ↦ some (t ∷ r) ])
unfolding le_value
next_place len total t whole (over h) e small = over (omega (arith, pow-suc 256 len))
next_place len total t whole (sum r v l b) e small =
    sum (t ∷ r) (omega arith) (omega arith) (small, b)

pub add_carry-Sums :
    (out : List ℕ) (carry : ℕ)
    → AllBytes out
    → Sums (length out) (le_value out + carry) (add_carry carry out)
unfolding add_carry le_value
add_carry-Sums [] carry p = elim (Bool-cases (carry == 0)) [
  | inl e ↦ rw e (sum [] (ground arith) refl tt)
  | inr e ↦ rw e (over (ground arith))
]
add_carry-Sums (o ∷ out) carry p = elim (Bool-cases (carry == 0)) [
  | inl e ↦ rw e (sum (o ∷ out) (ground arith) refl p)
  | inr e ↦ rw e (
      next_place (length out) _ ((o + carry) % 256) _ (add_carry-Sums out ((o + carry) / 256) p.1)
        (omega arith) (omega arith))
]

pub retotal : {len t t' : ℕ} {o : Option (List ℕ)} → t ≡ t' → Sums len t o → Sums len t' o
retotal {len} {t} {t'} {o} e h = rw (sym e) h

spread : (n m v : ℕ) → n * (m + 256 * v) ≡ m * n + 256 * (n * v)
spread n m v = grind arith

pub add_times-Sums :
    (n : ℕ) (out multi : List ℕ) (carry : ℕ)
    → AllBytes out
    → length multi ≤ length out
    → Sums (length out) (le_value out + carry + n * le_value multi) (add_times n carry out multi)
unfolding add_times le_value
add_times-Sums n [] [] carry p fits = retotal (omega arith) (add_carry-Sums [] carry p)
add_times-Sums n (o ∷ out) [] carry p fits =
    retotal (omega arith) (add_carry-Sums (o ∷ out) carry p)
add_times-Sums n [] (m ∷ multi) carry p fits = absurd (omega arith)
add_times-Sums n (o ∷ out) (m ∷ multi) carry p fits =
    next_place (length out) _ ((o + carry + m * n) % 256) _
      (add_times-Sums n out multi ((o + carry + m * n) / 256) p.1 (omega arith))
      (omega (arith, spread n m (le_value multi))) (omega arith)

-- The outcome for the power of ten: it does not fit into `room` places, or its places.
pub data Grows (room total : ℕ) : Option (List ℕ) → Type 0 where
  over : 256 ^ room ≤ total → Grows room total none
  grown :
      (r : List ℕ)
      → le_value r ≡ total
      → length r ≤ room
      → total < 256 ^ room
      → Grows room total (some r)

pub regrow :
    {room room' t t' : ℕ} {o : Option (List ℕ)}
    → room ≡ room'
    → t ≡ t'
    → Grows room t o
    → Grows room' t' o
regrow e f h = rw (sym e, sym f) h

next_grown :
    (room total t whole : ℕ) {o : Option (List ℕ)}
    → Grows room total o
    → whole ≡ t + 256 * total
    → t < 256
    → Grows (suc room) whole (elim o [ none ↦ none | some r ↦ some (t ∷ r) ])
unfolding le_value
next_grown room total t whole (Grows.over h) e small = Grows.over (omega (arith, pow-suc 256 room))
next_grown room total t whole (grown r v l b) e small =
    grown (t ∷ r) (omega arith) (omega arith) (omega (arith, pow-suc 256 room))

pub power_pos : (k : ℕ) → 0 < 256 ^ k
power_pos zero = omega arith
power_pos (suc k) = omega (arith, power_pos k, pow-suc 256 k)

fits_zero : (room carry : ℕ) → (carry == 0) ≡ true → carry < 256 ^ room
fits_zero room carry e = let nought : carry ≡ 0 = ground arith in omega (arith, power_pos room)

pub push_carry-Grows : (room carry : ℕ) → Grows room carry (push_carry room carry)
unfolding push_carry le_value
push_carry-Grows zero carry = elim (Bool-cases (carry == 0)) [
  | inl e ↦ rw e (grown [] (ground arith) (omega arith) (fits_zero 0 carry e))
  | inr e ↦ rw e (Grows.over (ground arith))
]
push_carry-Grows (suc room) carry = elim (Bool-cases (carry == 0)) [
  | inl e ↦ rw e (grown [] (ground arith) (omega arith) (fits_zero (suc room) carry e))
  | inr e ↦ rw e (
      next_grown room (carry / 256) (carry % 256) carry (push_carry-Grows room (carry / 256))
        (omega arith) (omega arith))
]

pub times_ten-Grows :
    (room carry : ℕ) (multi : List ℕ)
    → Grows (length multi + room) (10 * le_value multi + carry) (times_ten room carry multi)
unfolding times_ten le_value
times_ten-Grows room carry [] = regrow (omega arith) (omega arith) (push_carry-Grows room carry)
times_ten-Grows room carry (m ∷ multi) =
    regrow (let e : suc (length multi + room) ≡ suc (length multi) + room = omega arith in e) refl (
      next_grown (length multi + room) _ ((m * 10 + carry) % 256) _
        (times_ten-Grows room ((m * 10 + carry) / 256) multi) (omega arith) (omega arith))

shift : (q v : ℕ) → q * 256 * v ≡ 256 * (q * v)
shift q v = grind arith

power-shift : (z v : ℕ) → 256 ^ suc z * v ≡ 256 * (256 ^ z * v)
power-shift z v = ap (λ (q : ℕ). q * v) (pow-suc 256 z) ∙ shift (256 ^ z) v

-- Zeros in front of the places multiply by 256.
pub le_value-zeros : (z : ℕ) (bs : List ℕ) → le_value (replicate z 0 ++ bs) ≡ 256 ^ z * le_value bs
unfolding le_value
le_value-zeros zero bs = omega arith
le_value-zeros (suc z) bs = omega (arith, le_value-zeros z bs, power-shift z (le_value bs))

behind_zero : (q b v : ℕ) → b ≡ 0 → 256 * (q * v) ≡ q * (b + 256 * v)
behind_zero q b v e = rw e (grind arith)

pub skip_zeros-places :
    (z : ℕ) (bs : List ℕ)
    → (le_value (all_places (skip_zeros z bs)) ≡ 256 ^ z * le_value bs)
      × ((skip_zeros z bs).zeros + length (skip_zeros z bs).places ≡ z + length bs)
unfolding skip_zeros le_value
skip_zeros-places z [] = (le_value-zeros z [], refl)
skip_zeros-places z (b ∷ bs) = elim (Bool-cases (b == 0)) [
  | inl e ↦
      let (v, l) = skip_zeros-places (z + 1) bs in
      let nought : b ≡ 0 = ground arith in
      let next : z + 1 ≡ suc z = omega arith in
      rw e (
        v
            ∙ ap (λ (k : ℕ). 256 ^ k * le_value bs) next
            ∙ power-shift z (le_value bs)
            ∙ behind_zero (256 ^ z) b (le_value bs) nought,
        omega arith,
      )
  | inr e ↦ rw e (le_value-zeros z (b ∷ bs), refl)
]
