-- ===== src/Utf8/Inversion.antt =====
-- src/utf8.c, `cbor_is_utf8`: what an accepted text begins with.
use php_ext_cbor.Base.{
  ℕ, ◌+◌, ◌-◌, ◌*◌, ◌≤◌, ◌<◌, ◌≡◌, ◌≢◌, inl, inr, sym, ◌∙◌, List, [], ◌∷◌, ◌++◌, ◌==◌, arith,
  Bool-cases,
}
use native.Mathlib.Decide.{dec_lt}
use php_ext_cbor.Utf8.{run}
use php_ext_cbor.Utf8.Encoding.{IsScalar, encode_char}
use php_ext_cbor.Utf8.Table.{next_by_range, lead}
use php_ext_cbor.Utf8.Valid.{AllBytes, run_step, run_reject}

not_rejected : (s : ℕ) (r : List ℕ) → AllBytes r → run s r ≡ 0 → s ≢ 12
not_rejected s r h e p = absurd (omega (arith, run_reject r h, rw p at e))

-- What follows a state, if the text is accepted: the byte lies in the state's range.
module _ (b : ℕ) (r : List ℕ) (hb : b < 256) (hr : AllBytes r) where
  range_24 : run 24 (b ∷ r) ≡ 0 → (0x80 ≤ b) × (b < 0xc0) × (run 0 r ≡ 0)
  range_24 e = ground (arith, run_step 2 b r, not_rejected (next_by_range 24 b) r hr)

  range_36 : run 36 (b ∷ r) ≡ 0 → (0x80 ≤ b) × (b < 0xc0) × (run 24 r ≡ 0)
  range_36 e = ground (arith, run_step 3 b r, not_rejected (next_by_range 36 b) r hr)

  range_48 : run 48 (b ∷ r) ≡ 0 → (0xa0 ≤ b) × (b < 0xc0) × (run 24 r ≡ 0)
  range_48 e = ground (arith, run_step 4 b r, not_rejected (next_by_range 48 b) r hr)

  range_60 : run 60 (b ∷ r) ≡ 0 → (0x80 ≤ b) × (b < 0xa0) × (run 24 r ≡ 0)
  range_60 e = ground (arith, run_step 5 b r, not_rejected (next_by_range 60 b) r hr)

  range_72 : run 72 (b ∷ r) ≡ 0 → (0x90 ≤ b) × (b < 0xc0) × (run 36 r ≡ 0)
  range_72 e = ground (arith, run_step 6 b r, not_rejected (next_by_range 72 b) r hr)

  range_84 : run 84 (b ∷ r) ≡ 0 → (0x80 ≤ b) × (b < 0xc0) × (run 36 r ≡ 0)
  range_84 e = ground (arith, run_step 7 b r, not_rejected (next_by_range 84 b) r hr)

  range_96 : run 96 (b ∷ r) ≡ 0 → (0x80 ≤ b) × (b < 0x90) × (run 36 r ≡ 0)
  range_96 e = ground (arith, run_step 8 b r, not_rejected (next_by_range 96 b) r hr)

-- A text that the automaton accepts begins with the encoding of a scalar value.
abbrev pub Begins : List ℕ → Type 0
Begins bs =
    (cp : ℕ) × (r : List ℕ) × IsScalar cp × (bs ≡ encode_char cp ++ r) × AllBytes r × (run 0 r ≡ 0)

two_bytes :
    (a : ℕ) (bs : List ℕ) → AllBytes bs → 0xc2 ≤ a → a < 0xe0 → run 24 bs ≡ 0 → Begins (a ∷ bs)
unfolding run encode_char
two_bytes a [] h lo hi e = absurd (omega arith)
two_bytes a (b ∷ r) h lo hi e = (
  (a - 0xc0) * 64 + (b - 0x80),
  r,
  inl (ground (arith, range_24 b r h.0 h.1 e)),
  ground (arith, range_24 b r h.0 h.1 e),
  h.1,
  (range_24 b r h.0 h.1 e).2,
)

second_byte :
    (a b : ℕ) (r : List ℕ)
    → b < 256
    → AllBytes r
    → 0xe0 ≤ a
    → a < 0xf0
    → run (lead a) (b ∷ r) ≡ 0
    → (0x80 ≤ b) × (b < 0xc0) × (a ≡ 0xe0 → 0xa0 ≤ b) × (a ≡ 0xed → b < 0xa0) × (run 24 r ≡ 0)
second_byte a b r hb hr lo hi e = elim (Bool-cases (a == 0xe0)) [
  | inl p ↦ ground (arith, range_48 b r hb hr)
  | inr p ↦ elim (Bool-cases (a == 0xed)) [
    | inl q ↦ ground (arith, range_60 b r hb hr)
    | inr q ↦ ground (arith, range_36 b r hb hr)
  ]
]

second_of_four :
    (a b : ℕ) (r : List ℕ)
    → b < 256
    → AllBytes r
    → 0xf0 ≤ a
    → a < 0xf5
    → run (lead a) (b ∷ r) ≡ 0
    → (0x80 ≤ b) × (b < 0xc0) × (a ≡ 0xf0 → 0x90 ≤ b) × (a ≡ 0xf4 → b < 0x90) × (run 36 r ≡ 0)
second_of_four a b r hb hr lo hi e = elim (Bool-cases (a == 0xf0)) [
  | inl p ↦ ground (arith, range_72 b r hb hr)
  | inr p ↦ elim (Bool-cases (a == 0xf4)) [
    | inl q ↦ ground (arith, range_96 b r hb hr)
    | inr q ↦ ground (arith, range_84 b r hb hr)
  ]
]

three_bytes :
    (a : ℕ) (bs : List ℕ)
    → AllBytes bs
    → 0xe0 ≤ a
    → a < 0xf0
    → run (lead a) bs ≡ 0
    → Begins (a ∷ bs)
unfolding run encode_char
three_bytes a [] h lo hi e = absurd (ground arith)
three_bytes a (b ∷ []) h lo hi e = absurd (omega (arith, second_byte a b [] h.0 h.1 lo hi e))
three_bytes a (b ∷ c ∷ r) h lo hi e =
    let (b_lo, b_hi, e0, ed, q) = second_byte a b (c ∷ r) h.0 h.1 lo hi e in
    let (c_lo, c_hi, q') = range_24 c r h.1.0 h.1.1 q in
    ((a - 0xe0) * 4096 + (b - 0x80) * 64 + (c - 0x80), r, ground arith, ground arith, h.1.1, q')

four_bytes :
    (a : ℕ) (bs : List ℕ)
    → AllBytes bs
    → 0xf0 ≤ a
    → a < 0xf5
    → run (lead a) bs ≡ 0
    → Begins (a ∷ bs)
unfolding run encode_char
four_bytes a [] h lo hi e = absurd (ground arith)
four_bytes a (b ∷ []) h lo hi e = absurd (omega (arith, second_of_four a b [] h.0 h.1 lo hi e))
four_bytes a (b ∷ c ∷ []) h lo hi e =
    absurd (omega (arith, second_of_four a b (c ∷ []) h.0 h.1 lo hi e, range_36 c [] h.1.0 h.1.1))
four_bytes a (b ∷ c ∷ d ∷ r) h lo hi e =
    let (b_lo, b_hi, f0, f4, q) = second_of_four a b (c ∷ d ∷ r) h.0 h.1 lo hi e in
    let (c_lo, c_hi, q') = range_36 c (d ∷ r) h.1.0 h.1.1 q in
    let (d_lo, d_hi, q'') = range_24 d r h.1.1.0 h.1.1.1 q' in
    (
      (a - 0xf0) * 262144 + (b - 0x80) * 4096 + (c - 0x80) * 64 + (d - 0x80),
      r,
      ground arith,
      ground arith,
      h.1.1.1,
      q'',
    )

-- The first byte decides on the number of bytes.
begins : (a : ℕ) (bs : List ℕ) → a < 256 → AllBytes bs → run (lead a) bs ≡ 0 → Begins (a ∷ bs)
unfolding encode_char
begins a bs ha h e = elim (dec_lt a 0x80) [
  | yes p ↦ (a, bs, inl (omega arith), ground arith, h, ground arith)
  | no p ↦ elim (dec_lt a 0xe0) [
    | yes q ↦
        two_bytes a bs h (ground (arith, not_rejected (lead a) bs h e)) q
          (ground (arith, not_rejected (lead a) bs h e))
    | no q ↦ elim (dec_lt a 0xf0) [
      | yes r ↦ three_bytes a bs h (omega arith) r e
      | no r ↦ four_bytes a bs h (omega arith) (ground (arith, not_rejected (lead a) bs h e)) e
    ]
  ]
]

pub accepted-Begins :
    (a : ℕ) (bs : List ℕ) → AllBytes (a ∷ bs) → run 0 (a ∷ bs) ≡ 0 → Begins (a ∷ bs)
accepted-Begins a bs h e = begins a bs h.0 h.1 (sym (run_step 0 a bs (omega arith) h.0) ∙ e)
