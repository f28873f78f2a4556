-- ===== src/Utf8/Table.antt =====
-- src/utf8.c: the table of the automaton, read as a function by comparisons.
use php_ext_cbor.Base.{
  ℕ, ◌-◌, ◌*◌, ◌/◌, ◌%◌, ◌^◌, ◌≤◌, ◌<◌, ◌≡◌, refl, Bool, true, ◌&&◌, ◌||◌, ltb, leb, ◌==◌,
  if◌then◌else◌, ==_iff, arith, bit_and, not,
}
use php_ext_cbor.Base.Bits.{passes_under, passes_under_at}
use php_ext_cbor.Utf8.{class_of, next_state}

abbrev within : ℕ → ℕ → ℕ → Bool
within lo hi b = leb lo b && leb b hi

-- The state behind the first byte of a character.
abbrev pub lead : ℕ → ℕ
lead b =
    if ltb b 0x80
    then 0
    else if ltb b 0xc2
    then 12
    else if ltb b 0xe0
    then 24
    else if b == 0xe0
    then 48
    else if b == 0xed
    then 60
    else if ltb b 0xf0
    then 36
    else if b == 0xf0
    then 72
    else if ltb b 0xf4
    then 84
    else if b == 0xf4
    then 96
    else 12

-- The states by what they wait for: one byte 80..BF (24), two (36), two after E0 (48) and after ED
-- (60), three after F0 (72), after F1..F3 (84) and after F4 (96).
abbrev pub next_by_range : ℕ → ℕ → ℕ
next_by_range s b =
    if s == 0
    then lead b
    else if s == 24
    then if within 0x80 0xbf b then 0 else 12
    else if s == 36
    then if within 0x80 0xbf b then 24 else 12
    else if s == 48
    then if within 0xa0 0xbf b then 24 else 12
    else if s == 60
    then if within 0x80 0x9f b then 24 else 12
    else if s == 72
    then if within 0x90 0xbf b then 36 else 12
    else if s == 84
    then if within 0x80 0xbf b then 36 else 12
    else if s == 96
    then if within 0x80 0x8f b then 36 else 12
    else 12

-- States are the multiples of 12 up to 96.
row_agrees : ℕ → Bool
row_agrees k = passes_under 256 (λ b. next_state (12 * k) b == next_by_range (12 * k) b)

table_agrees : passes_under 9 row_agrees ≡ true
unfolding passes_under row_agrees next_state
table_agrees = refl

-- The table and the ranges give the same state.
pub next_state-by_range :
    (k b : ℕ) → k < 9 → b < 256 → next_state (12 * k) b ≡ next_by_range (12 * k) b
unfolding row_agrees
next_state-by_range k b hk hb =
    (==_iff _ _).0 (passes_under_at 256 _ b (passes_under_at 9 row_agrees k table_agrees hk) hb)

-- The bits that the first byte of a longer character contributes.
abbrev pub lead_bits : ℕ → ℕ
lead_bits b = if ltb b 0xe0 then b - 0xc0 else if ltb b 0xf0 then b - 0xe0 else b - 0xf0

lead_bits_table :
    passes_under 256
      (λ b. not (within 0xc2 0xf4 b) || (bit_and (0xff / 2 ^ class_of b) b == lead_bits b))
    ≡ true
unfolding passes_under class_of
lead_bits_table = refl

pub mask-lead_bits : (b : ℕ) → 0xc2 ≤ b → b ≤ 0xf4 → bit_and (0xff / 2 ^ class_of b) b ≡ lead_bits b
mask-lead_bits b lo hi =
    (==_iff _ _).0 (ground (arith, passes_under_at 256 _ b lead_bits_table (omega arith)))

tail_bits_table : passes_under 256 (λ b. bit_and b 0x3f == b % 64) ≡ true
unfolding passes_under
tail_bits_table = refl

pub mask-tail_bits : (b : ℕ) → b < 256 → bit_and b 0x3f ≡ b % 64
mask-tail_bits b h = (==_iff _ _).0 (passes_under_at 256 _ b tail_bits_table h)
