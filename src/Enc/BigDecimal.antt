-- ===== src/Enc/BigDecimal.antt =====
-- src/encode.c: decimal text of any length to bytes.
pub mod Sums
pub mod Rounds
pub mod Exact
pub mod Short
use Prim.Native.Nat.{min}
use mathlib.Core.List.{reverse}
use php_ext_cbor.Base.{
  ℕ, zero, suc, ◌+◌, ◌-◌, ◌*◌, ◌/◌, ◌%◌, ◌^◌, Bool, true, false, not, ◌&&◌, ◌||◌, Option, none,
  some, List, [], ◌∷◌, ◌++◌, ltb, leb, ◌==◌, if◌then◌else◌, length, take, drop, replicate, get_or,
}
use php_ext_cbor.Base.Int.{ℤ, pos, negsuc}
use php_ext_cbor.Codec.{internal, unsupported_value}
use php_ext_cbor.Codec.Tag
use php_ext_cbor.Di.{DiType}
use php_ext_cbor.Di.Encoder.{write_int}
use php_ext_cbor.Enc.{EncCtx, EncEngine, DecimalCalls, Status, good, failed, wrote}
use php_ext_cbor.Enc.Scalars.{enc_tag_bare, enc_long, enc_z_double}
use php_ext_cbor.Enc.Traverse.{enc_big}

-- 255 where the byte is no digit.
unfoldable pub dec_char_to_int : ℕ → ℕ
dec_char_to_int c = if leb b'0' c && leb c b'9' then c - b'0' else 255

-- The buffers `out_c` and `multi_c` are lists of bytes from the last place to the first. `multi_c`
-- from its end to `multi_pos`: `zeros` places behind `multi_max`, which are 0, and `places`.
pub record Multi : Type 0 where
  pub zeros : ℕ
  pub places : List ℕ

-- The loop that goes on while there is a carry; `none` is the jump to BAIL.
unfoldable pub add_carry : ℕ → List ℕ → Option (List ℕ)
add_carry carry [] = if carry == 0 then some [] else none
add_carry carry (o ∷ out) =
    let rest = add_carry ((o + carry) / 256) out in
    if carry == 0
    then some (o ∷ out)
    else elim rest [ none ↦ none | some r ↦ some ((o + carry) % 256 ∷ r) ]

-- `n` times the places of `multi_c` is added to `out_c`.
unfoldable pub add_times : ℕ → ℕ → List ℕ → List ℕ → Option (List ℕ)
unfolding add_carry
add_times n carry out [] = add_carry carry out
add_times n carry [] (m ∷ multi) = none
add_times n carry (o ∷ out) (m ∷ multi) = elim (add_times n ((o + carry + m * n) / 256) out multi) [
  | none ↦ none
  | some r ↦ some ((o + carry + m * n) % 256 ∷ r)
]

-- The carry goes into the places in front, of which there are `room`.
unfoldable pub push_carry : ℕ → ℕ → Option (List ℕ)
push_carry zero carry = if carry == 0 then some [] else none
push_carry (suc room) carry =
    let rest = push_carry room (carry / 256) in
    if carry == 0 then some [] else elim rest [ none ↦ none | some r ↦ some (carry % 256 ∷ r) ]

-- The places are multiplied by 10.
unfoldable pub times_ten : ℕ → ℕ → List ℕ → Option (List ℕ)
unfolding push_carry
times_ten room carry [] = push_carry room carry
times_ten room carry (m ∷ multi) = elim (times_ten room ((m * 10 + carry) / 256) multi) [
  | none ↦ none
  | some r ↦ some ((m * 10 + carry) % 256 ∷ r)
]

-- `multi_max` moves in front of the places that are 0.
unfoldable pub skip_zeros : ℕ → List ℕ → Multi
skip_zeros zeros [] = record { zeros = zeros; places = [] }
skip_zeros zeros (m ∷ multi) =
    if m == 0 then skip_zeros (zeros + 1) multi else record { zeros = zeros; places = m ∷ multi }

abbrev pub all_places : Multi → List ℕ
all_places multi = replicate multi.zeros 0 ++ multi.places

-- `if (n)`: the digit is added.
unfoldable pub add_digit : ℕ → List ℕ → Multi → Option (List ℕ)
unfolding add_times
add_digit n out multi = if n == 0 then some out else add_times n 0 out (all_places multi)

unfoldable pub next_multi : ℕ → Multi → Option Multi
unfolding times_ten skip_zeros
next_multi out_max multi =
    elim (times_ten (out_max - (multi.zeros + length multi.places)) 0 multi.places) [
      | none ↦ none
      | some places ↦ some (skip_zeros multi.zeros places)
    ]

abbrev pub on_some : {A B : Type 0} → Option A → (A → Option B) → Option B
on_some none f = none
on_some (some a) f = f a

-- The loop over the text from its end; a byte that is no digit is skipped.
unfoldable pub dec_rounds : ℕ → List ℕ → Multi → List ℕ → Option (List ℕ)
unfolding dec_char_to_int add_digit next_multi
dec_rounds out_max out multi [] = some out
dec_rounds out_max out multi (c ∷ cs) =
    let skipped = dec_rounds out_max out multi cs in
    let n = dec_char_to_int c in
    let counted =
      on_some (add_digit n out multi)
        λ out. on_some (next_multi out_max multi) λ multi. dec_rounds out_max out multi cs in
    if ltb 9 n then skipped else counted

-- `for (i = 0; i < out_max && !out_c[i]; i++)`.
unfoldable pub strip_zeros : List ℕ → List ℕ
strip_zeros [] = []
strip_zeros (c ∷ cs) = if c == 0 then strip_zeros cs else c ∷ cs

-- The number of bytes of the buffers.
abbrev pub out_size : ℕ → ℕ
out_size in_len = 415241 * in_len / 1000000 + 1

-- `none` is the jump to BAIL, which gives NULL. The text is shorter than 2^31 bytes: its positions and
-- the sizes of the buffers are `int`.
unfoldable pub decode_dec_str : List ℕ → Option (List ℕ)
unfolding dec_rounds strip_zeros
decode_dec_str in_c =
    let out_max = out_size (length in_c) in
    if ltb ((2 ^ 64 - 1) / 415241) (length in_c)
    then none
    else elim (dec_rounds out_max (replicate out_max 0) (record { zeros = 0; places = 1 ∷ [] })
        (reverse in_c)) [ none ↦ none | some out ↦ some (strip_zeros (reverse out)) ]

-- One is subtracted at the end, and borrowed in front; a first byte that comes to 0 is removed.
unfoldable pub borrow : List ℕ → List ℕ
borrow [] = []
borrow (c ∷ []) = if c == 1 then [] else (c + 255) % 256 ∷ []
borrow (c ∷ d ∷ cs) = let rest = borrow (d ∷ cs) in if c == 0 then 255 ∷ rest else (c - 1) ∷ d ∷ cs

unfoldable pub bin_int_sub1 : List ℕ → List ℕ
unfolding borrow
bin_int_sub1 str = reverse (borrow (reverse str))
