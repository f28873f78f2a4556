-- ===== src/Tests/Encoding.antt =====
-- The theorems on src/encode.c at concrete arguments.
use mathlib.Core.List.{reverse}
use php_ext_cbor.Base.{
  ℕ, zero, suc, length-replicate, ◌+◌, ◌-◌, ◌^◌, ◌<◌, ◌≡◌, ◌≢◌, refl, inl, inr, true, none, some,
  List, [], ◌∷◌, get_or, arith, replicate,
}
use php_ext_cbor.Base.Int.{pos, negsuc}
use php_ext_cbor.Decimal.{int_to_str}
use php_ext_cbor.Decode.Process.{done, decode}
use php_ext_cbor.Options.Encoding.{EncodeArgs}
use php_ext_cbor.Zv.{long, string, array, object, end, entry, index, name}
use php_ext_cbor.Zv.Proc.{zv_methods}
use php_ext_cbor.Zv.Trees.{Tree, nil, cons, count, write_tree, value_of}
use php_ext_cbor.Enc.{EncEngine, Heap, Instance, Step, Iterator}
use php_ext_cbor.Enc.Keys.{convert_string_to_int}
use php_ext_cbor.Enc.Keys.Exact.{convert_string_to_int-int_to_str}
use php_ext_cbor.Enc.Keys.Own.{int_to_str-convert_string_to_int}
use php_ext_cbor.Enc.Encode.{enc_zval, encode, encode_start, text_of, error, out_of_fuel}
use php_ext_cbor.Enc.RoundTrip.{height, IsPlain, encode-value_of, decode-encode}
use php_ext_cbor.Enc.Balance.{Balanced}
use php_ext_cbor.Enc.Balance.Ends.{AllEnd}
use php_ext_cbor.Enc.Balance.Whole.{enc_zval-Balanced, encode-ne-out_of_fuel}
use php_ext_cbor.Enc.BigDecimal.{decode_dec_str, bin_int_sub1}
use php_ext_cbor.Enc.BigDecimal.Rounds.{digit_count}
use php_ext_cbor.Enc.BigDecimal.Exact.{be_value, read_number, Decodes, decode_dec_str-exact}
use php_ext_cbor.Enc.BigDecimal.Short.{
  decode_dec_str-no_room, decode_dec_str-short, bin_int_sub1-value,
}
use php_ext_cbor.Enc.BigDecimal.Sums.{le_value}
use php_ext_cbor.Codec.{recursion}
use php_ext_cbor.Tests.Fixtures.{plain_engine, empty_state, default_args}

abbrev pub encoder : EncEngine
encoder = record {
  hash_sort = λ le ht. ht;
  gmp_export = λ n. n ∷ [];
  count_max = 2 ^ 30;
  rounds = 10;
  nan = 0x7ff8_0000_0000_0000;
  f16c = none;
  to_fp32 = λ n. 0;
}

-- An object that holds itself.
abbrev pub looped : Heap
looped = record {
  objects =
      record {
        refcount = 1;
        instance_of = Instance.std_class (entry (name (0x61 ∷ [])) (object 0) end);
      }
      ∷ [];
  cells = [];
}

-- An iterator of one pair, whose value is the empty object in front of it.
abbrev one_pair : Iterator
one_pair zero = Step.item (string (0x61 ∷ [])) (object 0)
one_pair (suc i) = Step.done

abbrev iterated : Heap
iterated = record {
  objects =
      record { refcount = 1; instance_of = Instance.std_class end }
      ∷ record { refcount = 1; instance_of = Instance.traversable none one_pair }
      ∷ [];
  cells = [];
}

iterated-AllEnd : AllEnd 10 iterated.objects
iterated-AllEnd = (tt, (inr (inl refl), tt))

-- Flags CBOR_BYTE | CBOR_KEY_BYTE | CBOR_INT_KEY.
abbrev pub plain_args : EncodeArgs
plain_args = record {
  e_flags = 0xd;
  u_flags = 0xd;
  max_depth = 64;
  string_ref = 0;
  shared_ref = 0;
  datetime = true;
  bignum = true;
  decimal = true;
  uri = true;
}

-- The list of 1 and the list of -3.
abbrev sample : Tree
sample = Tree.array (cons (Tree.uint 1) (cons (Tree.array (cons (Tree.nint 2) nil)) nil))

a_list :
    encode encoder looped plain_args
      (array (entry (index 0) (long (pos 1)) (entry (index 1) (long (negsuc 2)) end)))
    ≡ text_of (0x82 ∷ 0x01 ∷ 0x22 ∷ [])
unfolding encode
a_list = refl

itself : encode encoder looped plain_args (object 0) ≡ error recursion
unfolding encode
itself = refl

pairs_of_iterator :
    encode encoder iterated plain_args (object 1) ≡ text_of (0xbf ∷ 0x41 ∷ 0x61 ∷ 0xa0 ∷ 0xff ∷ [])
unfolding encode
pairs_of_iterator = refl

plain_args-IsPlain : IsPlain plain_args
plain_args-IsPlain = record {
  raw = refl;
  no_text = refl;
  no_16 = refl;
  no_32 = refl;
  bare = refl;
  no_refs = refl;
}

encode-value_of_example :
    encode encoder looped plain_args (value_of sample) ≡ text_of (write_tree sample)
unfolding height
encode-value_of_example =
    encode-value_of encoder looped plain_args sample plain_args-IsPlain (omega arith)

decode-encode_example :
    (text : List ℕ) × (encode encoder looped plain_args (value_of sample) ≡ text_of text)
    × (decode (zv_methods plain_engine) empty_state default_args text
        ≡ done (record { error = none; error_offset = 0; value = some (value_of sample) }))
unfolding count height
decode-encode_example =
    decode-encode encoder looped plain_engine empty_state plain_args default_args sample
      plain_args-IsPlain (omega arith) refl
      (
        omega arith,
        omega arith,
        omega arith,
        (
          omega arith,
          ((omega arith, omega arith, omega arith, (omega arith, record {})), record {}),
        ),
      )
      (omega arith) refl refl

enc_zval-Balanced_example :
    Balanced
      (encode_start plain_args)
      (enc_zval encoder iterated 66 (encode_start plain_args) (object 1))
unfolding encode_start
enc_zval-Balanced_example =
    enc_zval-Balanced encoder iterated iterated-AllEnd 66 (encode_start plain_args) (object 1)
      (omega arith) (omega arith)

encode-ne-out_of_fuel_example : encode encoder iterated plain_args (object 1) ≢ out_of_fuel
encode-ne-out_of_fuel_example =
    encode-ne-out_of_fuel encoder iterated iterated-AllEnd plain_args (object 1)

convert_string_to_int-int_to_str_example :
    convert_string_to_int (int_to_str (2 ^ 64 - 1) true) ≡ some (2 ^ 64 - 1, true)
convert_string_to_int-int_to_str_example =
    convert_string_to_int-int_to_str (2 ^ 64 - 1) true (omega arith)

-- "-16".
abbrev negative_key : List ℕ
negative_key = b'-' ∷ b'1' ∷ b'6' ∷ []

int_to_str-convert_string_to_int_example : (15 < 2 ^ 64) × (int_to_str 15 true ≡ negative_key)
unfolding convert_string_to_int
int_to_str-convert_string_to_int_example =
    int_to_str-convert_string_to_int negative_key {n = 15} {b = true} refl

-- "12.8".
abbrev dotted : List ℕ
dotted = b'1' ∷ b'2' ∷ b'.' ∷ b'8' ∷ []

decode_dec_str-exact_example :
    Decodes 4 (digit_count (reverse dotted)) (read_number 0 dotted) (decode_dec_str dotted)
decode_dec_str-exact_example = decode_dec_str-exact dotted (omega arith)

decode_dec_str-short_example :
    (r : List ℕ) × (decode_dec_str dotted ≡ some r)
    × (be_value r ≡ read_number 0 dotted)
    × (get_or r 0 1 ≢ 0)
decode_dec_str-short_example = decode_dec_str-short dotted (omega arith)

bin_int_sub1-value_example : be_value (bin_int_sub1 (1 ∷ 0 ∷ [])) + 1 ≡ be_value (1 ∷ 0 ∷ [])
unfolding le_value
bin_int_sub1-value_example =
    bin_int_sub1-value (1 ∷ 0 ∷ []) (omega arith, (omega arith, record {})) (omega arith)

all_nines : (n : ℕ) → digit_count (replicate n b'9') ≡ n
unfolding digit_count
all_nines zero = refl
all_nines (suc n) = omega (arith, all_nines n)

decode_dec_str-no_room_example : decode_dec_str (replicate 27531 b'9') ≡ none
decode_dec_str-no_room_example =
    decode_dec_str-no_room (replicate 27531 b'9') (length-replicate {A = ℕ} 27531 b'9')
      (all_nines 27531)
