-- ===== src/Enc/Balance/Parts.antt =====
-- The functions of src/encode.c that encode no value of their own: they are balanced, with what they
-- write.
use php_ext_cbor.Base.{
  ℕ, ◌-◌, ◌^◌, Bool, true, false, not, ◌&&◌, ◌||◌, Option, none, some, List, [], ◌∷◌, leb, ◌==◌,
  length, if-elim, take,
}
use php_ext_cbor.Codec.{internal}
use php_ext_cbor.Base.Int.{ℤ, pos, negsuc}
use php_ext_cbor.Zv.{Key, index, name, Zval, Entries, end, entry}
use php_ext_cbor.Enc.{
  EncCtx, EncEngine, DecimalCalls, Srns, Call, Status, failed, Follow, Place, Bucket,
}
use php_ext_cbor.Enc.Keys.{convert_string_to_int}
use php_ext_cbor.Enc.Strings.{
  ref_or_add, enc_string_ref, write_string, after_ref, enc_string_in, enc_string, find_index,
  table_of,
}
use php_ext_cbor.Codec.{has_flag, is_len_string_ref}
use php_ext_cbor.Codec.Flag
use php_ext_cbor.Utf8.{is_utf8}
use php_ext_cbor.Enc.Hash.{key_flag_error, enc_key_string, enc_name, enc_key, add_bucket, collect}
use php_ext_cbor.Enc.Shared.{write_ref, enc_ref_counted, ref_index}
use php_ext_cbor.Enc.Traverse.{enc_datetime, enc_uri, enc_big, enc_bignum, trim_date}
use php_ext_cbor.Enc.BigDecimal.{decode_dec_str}
use php_ext_cbor.Enc.DecimalObject.{
  enc_decimal, enc_decimal_text, enc_decimal_digits, write_decimal, mantissa, with_text,
  out_of_range, plus, split_exponent, point_exponent, char_index,
}
use php_ext_cbor.Enc.Encode.{enc_php_string}
use php_ext_cbor.Enc.Balance.{
  Balanced, BalancedFollow, kept, gave_up, ended, follows, Same-refl, Balanced-Same,
}

ref_or_add-Balanced :
    (c : EncCtx) (n : Srns) (s : List ℕ) (t : Bool) (o : Option ℕ)
    → BalancedFollow c (ref_or_add c n s t o)
unfolding ref_or_add
ref_or_add-Balanced c n s t (some i) = ended (kept (Same-refl c))
ref_or_add-Balanced c n s t none =
    if-elim (BalancedFollow c) (not (is_len_string_ref (length s) n.next_index))
      (follows (Same-refl c))
      (if-elim (BalancedFollow c) (n.next_index == 2 ^ 32 - 1) (ended gave_up)
        (follows (Same-refl c)))

write_string-Balanced : (c : EncCtx) (s : List ℕ) (t : Bool) → Balanced c (write_string c s t)
unfolding write_string
write_string-Balanced c s t =
    if-elim (Balanced c) (t && not (has_flag c.args.e_flags Flag.unsafe_text) && not (is_utf8 s))
      gave_up (kept (Same-refl c))

after_ref-Balanced :
    (c : EncCtx) (s : List ℕ) (t : Bool) {r : EncCtx × Follow}
    → BalancedFollow c r
    → Balanced c (after_ref s t r)
unfolding after_ref
after_ref-Balanced c s t (ended h) = h
after_ref-Balanced c s t (follows h) = Balanced-Same h (write_string-Balanced _ s t)

enc_string_in-Balanced :
    (c : EncCtx) (ns : Option Srns) (s : List ℕ) (t : Bool) → Balanced c (enc_string_in c ns s t)
unfolding enc_string_in enc_string_ref
enc_string_in-Balanced c none s t = write_string-Balanced c s t
enc_string_in-Balanced c (some ns) s t =
    after_ref-Balanced c s t (ref_or_add-Balanced c ns s t (find_index s (table_of ns t)))

pub enc_string-Balanced : (c : EncCtx) (s : List ℕ) (t : Bool) → Balanced c (enc_string c s t)
unfolding enc_string
enc_string-Balanced c s t = enc_string_in-Balanced c c.srns s t

-- The same behind something that is written first.
behind : (c : EncCtx) (b s : List ℕ) (t : Bool) → Balanced c (enc_string (record c { buf = b }) s t)
behind c b s t = Balanced-Same (Same-refl c) (enc_string-Balanced (record c { buf = b }) s t)

pub enc_php_string-Balanced : (c : EncCtx) (s : List ℕ) → Balanced c (enc_php_string c s)
unfolding enc_php_string
enc_php_string-Balanced c s =
    if-elim (Balanced c) (has_flag c.args.e_flags Flag.byte || has_flag c.args.e_flags Flag.text)
      (enc_string-Balanced c s _) gave_up

enc_key_string-Balanced : (c : EncCtx) (s : List ℕ) → Balanced c (enc_key_string c s)
unfolding enc_key_string
enc_key_string-Balanced c s =
    if-elim (Balanced c) (key_flag_error c.args.e_flags) gave_up (enc_string-Balanced c s _)

enc_name-Balanced : (c : EncCtx) (s : List ℕ) (o : Option (ℕ × Bool)) → Balanced c (enc_name c s o)
unfolding enc_name
enc_name-Balanced c s none = enc_key_string-Balanced c s
enc_name-Balanced c s (some (v, b)) = kept (Same-refl c)

pub enc_key-Balanced : (c : EncCtx) (k : Key) → Balanced c (enc_key c k)
unfolding enc_key
enc_key-Balanced c (name s) =
    if-elim (Balanced c) (has_flag c.args.e_flags Flag.int_key)
      (enc_name-Balanced c s (convert_string_to_int s)) (enc_key_string-Balanced c s)
enc_key-Balanced c (index i) =
    if-elim (Balanced c) (has_flag c.args.e_flags Flag.int_key) (kept (Same-refl c))
      (enc_key_string-Balanced c _)

write_ref-Balanced : (c : EncCtx) (p : Place) (o : Option ℕ) → BalancedFollow c (write_ref c p o)
unfolding write_ref
write_ref-Balanced c p none = follows (Same-refl c)
write_ref-Balanced c p (some i) = ended (kept (Same-refl c))

pub enc_ref_counted-Balanced : (c : EncCtx) (p : Place) → BalancedFollow c (enc_ref_counted c p)
unfolding enc_ref_counted
enc_ref_counted-Balanced c p = write_ref-Balanced c p (ref_index 0 p c.refs)

pub enc_datetime-Balanced : (c : EncCtx) (s : Option (List ℕ)) → Balanced c (enc_datetime c s)
unfolding enc_datetime
enc_datetime-Balanced c (some s) =
    if-elim (Balanced c) (length s == 32) (behind c _ (trim_date s) true) gave_up
enc_datetime-Balanced c none = gave_up

pub enc_uri-Balanced : (c : EncCtx) (s : Call (Option (List ℕ))) → Balanced c (enc_uri c s)
unfolding enc_uri
enc_uri-Balanced c (Call.returns (some s)) = behind c _ s true
enc_uri-Balanced c (Call.returns none) = gave_up
enc_uri-Balanced c Call.raises = gave_up
enc_uri-Balanced c Call.not_called = gave_up

enc_big-Balanced : (c : EncCtx) (s : List ℕ) (b : Bool) → Balanced c (enc_big c s b)
unfolding enc_big
enc_big-Balanced c s b =
    if-elim (Balanced c) (leb (length s) 8) (kept (Same-refl c)) (behind c _ s false)

pub enc_bignum-Balanced : (e : EncEngine) (c : EncCtx) (n : ℤ) → Balanced c (enc_bignum e c n)
unfolding enc_bignum
enc_bignum-Balanced e c (pos n) = enc_big-Balanced c _ false
enc_bignum-Balanced e c (negsuc n) = enc_big-Balanced c _ true

write_decimal-Balanced : (c : EncCtx) (m : List ℕ × Bool) (n : ℤ) → Balanced c (write_decimal c m n)
unfolding write_decimal
write_decimal-Balanced c (s, b) n =
    if-elim (Balanced c) (out_of_range n) gave_up
      (Balanced-Same (Same-refl c) (enc_big-Balanced (record c { buf = _ }) s b))

-- The bytes of the digits are written, if there are any.
digits_then :
    (c : EncCtx) (o : Option (List ℕ)) (f : List ℕ → EncCtx × Status)
    → ((s : List ℕ) → Balanced c (f s))
    → Balanced c (elim o [ none ↦ (c, failed internal) | some s ↦ f s ])
digits_then c none f h = gave_up
digits_then c (some s) f h = h s

enc_decimal_digits-Balanced :
    (c : EncCtx) (b : Bool) (s : List ℕ) (o : Option (ℕ × ℤ))
    → Balanced c (enc_decimal_digits c b s o)
unfolding enc_decimal_digits
enc_decimal_digits-Balanced c b s none = gave_up
enc_decimal_digits-Balanced c b s (some (n, x)) =
    digits_then c (decode_dec_str (take n s)) _
      (λ d. write_decimal-Balanced c (mantissa b d) (plus x (point_exponent n (char_index b'.' s))))

enc_decimal_text-Balanced : (c : EncCtx) (s : List ℕ) → Balanced c (enc_decimal_text c s)
unfolding enc_decimal_text
enc_decimal_text-Balanced c [] = gave_up
enc_decimal_text-Balanced c (a ∷ s) =
    if-elim (Balanced c) (a == b'-')
      (if-elim (Balanced c) (length s == 0) gave_up
        (enc_decimal_digits-Balanced c true s (split_exponent s (char_index b'E' s))))
      (enc_decimal_digits-Balanced c false (a ∷ s)
        (split_exponent (a ∷ s) (char_index b'E' (a ∷ s))))

with_text-Balanced : (c : EncCtx) (o : Option (List ℕ)) → Balanced c (with_text c o)
with_text-Balanced c none = gave_up
with_text-Balanced c (some s) = enc_decimal_text-Balanced c s

-- The answers of the object in turn.
decimal_answers :
    (e : EncEngine) (c : EncCtx) (nan inf neg : Option Bool) (s : Option (List ℕ))
    → Balanced c
        (enc_decimal e c (record { is_nan = nan; is_inf = inf; is_negative = neg; to_string = s }))
unfolding enc_decimal
decimal_answers e c none inf neg s = gave_up
decimal_answers e c (some true) inf neg s = kept (Same-refl c)
decimal_answers e c (some false) none neg s = gave_up
decimal_answers e c (some false) (some true) none s = gave_up
decimal_answers e c (some false) (some true) (some b) s = kept (Same-refl c)
decimal_answers e c (some false) (some false) neg s = with_text-Balanced c s

pub enc_decimal-Balanced :
    (e : EncEngine) (c : EncCtx) (d : DecimalCalls) → Balanced c (enc_decimal e c d)
enc_decimal-Balanced e c d = decimal_answers e c d.is_nan d.is_inf d.is_negative d.to_string

add_bucket-Balanced :
    (c d : EncCtx) (ht : List Bucket) (v : Zval) {r : EncCtx × Status}
    → Balanced (record c { buf = [] }) r
    → Balanced c (add_bucket c.buf ht v r).0
unfolding add_bucket
add_bucket-Balanced c d ht v (kept h) = kept h
add_bucket-Balanced c d ht v gave_up = gave_up

pub collect-Balanced :
    (c : EncCtx) (es : Entries) {r : EncCtx × Status} (ht : List Bucket)
    → Balanced c r
    → Balanced c (collect (r, ht) es).0
unfolding collect
collect-Balanced c end ht h = h
collect-Balanced c (entry k v es) ht (kept {c = c'} h) =
    collect-Balanced c es _ (
      Balanced-Same h
        (add_bucket-Balanced c' c' ht v (enc_key-Balanced (record c' { buf = [] }) k)))
collect-Balanced c (entry k v es) ht gave_up = gave_up
