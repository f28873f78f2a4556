-- ===== src/Enc/DecimalObject.antt =====
-- src/encode.c, `enc_decimal`: the objects of the decimal extension.
use Prim.Native.Nat.{min}
use php_ext_cbor.Base.{
  ℕ, zero, suc, ◌+◌, ◌-◌, ◌*◌, ◌%◌, ◌^◌, Bool, true, false, ◌&&◌, Option, none, some, List, [], ◌∷◌,
  ltb, leb, ◌==◌, if◌then◌else◌, length, take, drop,
}
use php_ext_cbor.Base.Int.{ℤ, pos, negsuc}
use php_ext_cbor.Codec.{internal, unsupported_value}
use php_ext_cbor.Codec.Tag
use php_ext_cbor.Di.{DiType}
use php_ext_cbor.Di.Encoder.{write_int}
use php_ext_cbor.Enc.{EncCtx, EncEngine, DecimalCalls, Status, failed, wrote}
use php_ext_cbor.Enc.Scalars.{enc_tag_bare, enc_long, enc_z_double}
use php_ext_cbor.Enc.Traverse.{enc_big}
use php_ext_cbor.Enc.BigDecimal.{decode_dec_str, bin_int_sub1, on_some}

-- `strchr`.
unfoldable pub char_index : ℕ → List ℕ → Option ℕ
char_index c [] = none
char_index c (d ∷ s) = if d == c then some 0 else on_some (char_index c s) (λ i. some (i + 1))

-- `atoi`, as `strtol` cut to an `int`; the text has no blanks.
unfoldable pub leading_number : ℕ → List ℕ → ℕ
leading_number n [] = n
leading_number n (c ∷ s) =
    let rest = leading_number (n * 10 + (c - b'0')) s in
    if leb b'0' c && leb c b'9' then rest else n

abbrev to_int32 : ℕ → ℤ
to_int32 n = let low = n % 2 ^ 32 in if ltb low (2 ^ 31) then pos low else negsuc (2 ^ 32 - 1 - low)

unfoldable pub atoi : List ℕ → ℤ
unfolding leading_number
atoi [] = pos 0
atoi (c ∷ s) =
    if c == b'-'
    then to_int32 (2 ^ 64 - min (leading_number 0 s) (2 ^ 63))
    else to_int32 (min (leading_number 0 (if c == b'+' then s else c ∷ s)) (2 ^ 63 - 1))

-- The sum of the exponent and what the point adds to it, and the test of its range.
abbrev pub plus : ℤ → ℤ → ℤ
plus (pos n) (pos m) = pos (n + m)
plus (pos n) (negsuc m) = if leb (m + 1) n then pos (n - m - 1) else negsuc (m - n)
plus (negsuc n) (pos m) = if leb (n + 1) m then pos (m - n - 1) else negsuc (n - m)
plus (negsuc n) (negsuc m) = negsuc (n + m + 1)

abbrev pub out_of_range : ℤ → Bool
out_of_range (pos n) = leb (2 ^ 63) n
out_of_range (negsuc n) = leb (2 ^ 63) n

-- The digits before an exponent, and the exponent; `none` where it is too long.
unfoldable pub split_exponent : List ℕ → Option ℕ → Option (ℕ × ℤ)
unfolding atoi
split_exponent r none = some (length r, pos 0)
split_exponent r (some e) =
    if leb 21 (length r - e - 1) then none else some (e, atoi (drop (e + 1) r))

abbrev negated : ℤ → ℤ
negated (pos zero) = pos 0
negated (pos (suc n)) = negsuc n
negated (negsuc n) = pos (n + 1)

-- `exp_p`: the number of digits behind the point, cut to an `int`.
unfoldable pub point_exponent : ℕ → Option ℕ → ℤ
point_exponent len none = pos 0
point_exponent len (some d) = negated (to_int32 (len + 2 ^ 64 - 1 - d))

-- The number -1 - n for a negative one; zero has no sign.
unfoldable pub mantissa : Bool → List ℕ → List ℕ × Bool
unfolding bin_int_sub1
mantissa false bin_str = (bin_str, false)
mantissa true [] = ([], false)
mantissa true (c ∷ cs) = (bin_int_sub1 (c ∷ cs), true)

abbrev is_zero : ℤ → Bool
is_zero (pos n) = n == 0
is_zero (negsuc n) = false

-- The tag and the exponent, where they are needed.
unfoldable pub decimal_head : List ℕ → List ℕ → ℤ → List ℕ
unfolding enc_tag_bare enc_long write_int
decimal_head buf bin_str exp =
    if is_zero exp && leb (length bin_str) 8
    then buf
    else enc_long (write_int (enc_tag_bare buf Tag.decimal) DiType.array 2) exp

unfoldable pub write_decimal : EncCtx → List ℕ × Bool → ℤ → EncCtx × Status
unfolding decimal_head enc_big
write_decimal ctx (bin_str, is_negative) exp =
    if out_of_range exp
    then (ctx, failed unsupported_value)
    else enc_big (record ctx { buf = decimal_head ctx.buf bin_str exp }) bin_str is_negative

unfoldable pub enc_decimal_digits : EncCtx → Bool → List ℕ → Option (ℕ × ℤ) → EncCtx × Status
unfolding decode_dec_str write_decimal mantissa point_exponent char_index
enc_decimal_digits ctx is_negative r none = (ctx, failed unsupported_value)
enc_decimal_digits ctx is_negative r (some (len, exp)) = elim (decode_dec_str (take len r)) [
  | none ↦ (ctx, failed internal)
  | some bin_str ↦
      write_decimal ctx (mantissa is_negative bin_str)
        (plus exp (point_exponent len (char_index b'.' r)))
]

-- The text that `toString` gave, such as "-123.45E+67".
unfoldable pub enc_decimal_text : EncCtx → List ℕ → EncCtx × Status
unfolding enc_decimal_digits split_exponent char_index
enc_decimal_text ctx [] = (ctx, failed internal)
enc_decimal_text ctx (c ∷ s) =
    if c == b'-'
    then if length s == 0
      then (ctx, failed internal)
      else enc_decimal_digits ctx true s (split_exponent s (char_index b'E' s))
    else enc_decimal_digits ctx false (c ∷ s) (split_exponent (c ∷ s) (char_index b'E' (c ∷ s)))

abbrev pub with_text : EncCtx → Option (List ℕ) → EncCtx × Status
with_text ctx none = (ctx, failed internal)
with_text ctx (some s) = enc_decimal_text ctx s

-- An infinity's sign, which is asked for last.
abbrev infinity : Bool → ℕ
infinity is_negative = if is_negative then 0xfff0_0000_0000_0000 else 0x7ff0_0000_0000_0000

unfoldable pub enc_decimal : EncEngine → EncCtx → DecimalCalls → EncCtx × Status
unfolding enc_decimal_text enc_z_double
enc_decimal engine ctx calls = elim calls.is_nan [
  | none ↦ (ctx, failed internal)
  | some true ↦ wrote ctx (enc_z_double engine ctx.args.e_flags ctx.buf engine.nan)
  | some false ↦ elim calls.is_inf [
    | none ↦ (ctx, failed internal)
    | some true ↦ elim calls.is_negative [
      | none ↦ (ctx, failed internal)
      | some b ↦ wrote ctx (enc_z_double engine ctx.args.e_flags ctx.buf (infinity b))
    ]
    | some false ↦ with_text ctx calls.to_string
  ]
]
