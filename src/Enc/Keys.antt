-- ===== src/Enc/Keys.antt =====
-- src/encode.c, `convert_string_to_int`: a key of decimal digits is an integer.
pub mod Exact
pub mod Own
use php_ext_cbor.Base.{
  ℕ, suc, ◌+◌, ◌-◌, ◌*◌, ◌/◌, ◌%◌, ◌^◌, Bool, true, false, not, ◌&&◌, ◌||◌, Option, none, some,
  List, [], ◌∷◌, ltb, leb, ◌==◌, if◌then◌else◌, length, get_or,
}

-- The last byte is set: `buf[len - 1] = '5'`.
unfoldable pub set_last : ℕ → List ℕ → List ℕ
set_last v [] = []
set_last v (c ∷ []) = v ∷ []
set_last v (c ∷ d ∷ cs) = c ∷ set_last v (d ∷ cs)

-- The loop over the digits, `i` of them read: `none` if it stops before the end.
unfoldable pub dec_loop : ℕ → ℕ → List ℕ → Option ℕ
dec_loop i dec_value [] = some dec_value
dec_loop i dec_value (c ∷ cs) =
    let rest = dec_loop (i + 1) ((dec_value * 10 + (c - b'0')) % 2 ^ 64) cs in
    if ltb c b'0' || ltb b'9' c || (ltb 18 i && ltb ((2 ^ 64 - 1 - (c - b'0')) / 10) dec_value)
    then none
    else rest

abbrev unsigned_result : Option ℕ → Option (ℕ × Bool)
unsigned_result none = none
unsigned_result (some v) = some (v, false)

-- `dec_value--` wraps at 0.
abbrev negative_result : Bool → Option ℕ → Option (ℕ × Bool)
negative_result negative_fix none = none
negative_result negative_fix (some v) =
    some (if negative_fix then v else (v + 2 ^ 64 - 1) % 2 ^ 64, true)

-- The text behind the minus sign. The last digit 6 is read as 5, and nothing is subtracted later.
unfoldable pub convert_negative : List ℕ → Option (ℕ × Bool)
unfolding set_last dec_loop
convert_negative ptr =
    let negative_fix = get_or ptr (length ptr - 1) 0 == b'6' in
    let digits = if negative_fix then set_last b'5' ptr else ptr in
    let c = get_or digits 0 0 in
    if (c == b'-') || (c == b'0') || (c == 0)
    then none
    else negative_result negative_fix (dec_loop 0 0 digits)

-- The value and whether it is negative: a negative integer is -1 - value.
unfoldable pub convert_string_to_int : List ℕ → Option (ℕ × Bool)
unfolding convert_negative dec_loop
convert_string_to_int [] = none
convert_string_to_int (c ∷ cs) =
    if ltb c b'-' || ltb b'9' c
    then none
    else if ltb 21 (length (c ∷ cs))
    then none
    else if c == b'0'
    then if length (c ∷ cs) == 1 then some (0, false) else none
    else if c == b'-'
    then convert_negative cs
    else unsigned_result (dec_loop 0 0 (c ∷ cs))
