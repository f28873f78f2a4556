-- ===== src/Decode/Written.antt =====
-- src/decode_base.h behind src/di_encoder.c: what was written is read back by the method it is for.
use php_ext_cbor.Base.{
  ℕ, ◌+◌, ◌*◌, ◌^◌, ◌<◌, ◌≡◌, refl, sym, ap, Bool, true, false, none, List, [], ◌∷◌, ◌++◌, ltb, leb,
  ◌==◌, if◌then◌else◌, length, arith, append_assoc, length-append, take, drop, take-length,
  drop-length,
}
use php_ext_cbor.Base.Bits.{major_bits, info_bits}
use php_ext_cbor.Di.{DiType, IsU64, major_type, unset, Decoded}
use php_ext_cbor.Di.Encoder.{
  int_head, write_int, write_indef, write_bool, write_null, write_undef, write_simple,
  write_float16, write_float32, write_float64,
}
use php_ext_cbor.Di.Decoder.{
  get_type, read_int, read_str, read_list, read_float, simple_type, set_out_len, finish_str,
}
use php_ext_cbor.Di.RoundTrip.{
  head_len, payload_of, length-int_head, read_int-int_head, read_list-int_head, get_type-write_int,
  read_str-string,
}
use php_ext_cbor.Decode.{Ctx, Event, Methods}
use php_ext_cbor.Decode.Item.{i32_of, i64_of, ItemResult, dec_type, dec_item, dec_string, dec_list}
use php_ext_cbor.Decode.Tokens.{Token, write_token, event_of, InRange}

module _ {I U V : Type 0} (m : Methods I U V) (rest : List ℕ) (ctx : Ctx I U) where
  -- The item has no error, took `n` bytes, and called the method for `e`.
  abbrev pub Calls : ℕ → Event → ItemResult I U → Type 0
  Calls n e r = (r.0 ≡ none) × (r.1.read_len ≡ n) × (r.2 ≡ m.proc e ctx)

  abbrev fresh : Decoded
  fresh = record { read_len = 1; req_len = 0; v = unset }

  -- The union after a head was read: the member that is_double tells holds the number.
  int_event :
      (wide narrow : ℕ → Event) (n : ℕ)
      → (if head_len n == 9 then wide (i64_of (payload_of n)) else narrow (i32_of (payload_of n)))
        ≡ (if leb n 0xffff_ffff then narrow n else wide n)
  unfolding head_len payload_of
  int_event wide narrow n = ground arith

  tag_value :
      (n : ℕ) → (if head_len n == 9 then i64_of (payload_of n) else i32_of (payload_of n)) ≡ n
  unfolding head_len payload_of
  tag_value n = ground arith

  uint-Calls :
      (n : ℕ)
      → IsU64 n
      → Calls
          (head_len n)
          (event_of (Token.uint n))
          (dec_item m (write_int [] DiType.uint n ++ rest) ctx)
  unfolding dec_item dec_type event_of write_int
  uint-Calls n h =
      rw
        (
          get_type-write_int DiType.uint n rest (omega arith),
          read_int-int_head 0 n rest fresh (omega arith) h,
        )
        (refl, refl, ap (λ (e : Event). m.proc e ctx) (int_event Event.uint64 Event.uint32 n))

  nint-Calls :
      (n : ℕ)
      → IsU64 n
      → Calls
          (head_len n)
          (event_of (Token.nint n))
          (dec_item m (write_int [] DiType.nint n ++ rest) ctx)
  unfolding dec_item dec_type event_of write_int
  nint-Calls n h =
      rw
        (
          get_type-write_int DiType.nint n rest (omega arith),
          read_int-int_head 1 n rest fresh (omega arith) h,
        )
        (refl, refl, ap (λ (e : Event). m.proc e ctx) (int_event Event.nint64 Event.nint32 n))

  tag-Calls :
      (n : ℕ)
      → IsU64 n
      → Calls
          (head_len n)
          (event_of (Token.tag n))
          (dec_item m (write_int [] DiType.tag n ++ rest) ctx)
  unfolding dec_item dec_type event_of write_int
  tag-Calls n h =
      rw
        (
          get_type-write_int DiType.tag n rest (omega arith),
          read_int-int_head 6 n rest fresh (omega arith) h,
        )
        (refl, refl, ap (λ (k : ℕ). m.proc (Event.tag_start k) ctx) (tag_value n))

  count_fits : (n : ℕ) → n < 2 ^ 32 → ltb 0xffff_ffff n ≡ false
  count_fits n h = ground arith

  array-Calls :
      (n : ℕ)
      → n < 2 ^ 32
      → Calls
          (head_len n)
          (event_of (Token.array_of n))
          (dec_item m (write_int [] DiType.array n ++ rest) ctx)
  unfolding dec_item dec_type dec_list event_of write_int
  array-Calls n h =
      rw
        (
          get_type-write_int DiType.array n rest (omega arith),
          read_list-int_head 4 n rest fresh (omega arith) (omega arith),
          count_fits n h,
        )
        (refl, refl, refl)

  map-Calls :
      (n : ℕ)
      → n < 2 ^ 32
      → Calls
          (head_len n)
          (event_of (Token.map_of n))
          (dec_item m (write_int [] DiType.map n ++ rest) ctx)
  unfolding dec_item dec_type dec_list event_of write_int
  map-Calls n h =
      rw
        (
          get_type-write_int DiType.map n rest (omega arith),
          read_list-int_head 5 n rest fresh (omega arith) (omega arith),
          count_fits n h,
        )
        (refl, refl, refl)

  -- The bytes behind the head, at the position that the read gives.
  content :
      (t : DiType) (s : List ℕ)
      → take (length s) (drop (head_len (length s)) (write_int [] t (length s) ++ (s ++ rest))) ≡ s
  unfolding write_int
  content t s =
      rw
        (
          sym (length-int_head (major_type t * 32) (length s)),
          drop-length (int_head (major_type t * 32) (length s)) (s ++ rest),
        )
        (take-length s rest)

  bytes-Calls :
      (s : List ℕ)
      → IsU64 (length s + 9)
      → Calls
          (head_len (length s) + length s)
          (event_of (Token.bytes s))
          (dec_item m (write_int [] DiType.bstr (length s) ++ (s ++ rest)) ctx)
  unfolding dec_item dec_type dec_string event_of
  bytes-Calls s h =
      rw
        (
          get_type-write_int DiType.bstr (length s) (s ++ rest) (omega arith),
          read_str-string DiType.bstr s rest fresh (omega arith) h,
        )
        (refl, refl, ap (λ (t : List ℕ). m.proc (Event.byte_string t) ctx) (content DiType.bstr s))

  text-Calls :
      (s : List ℕ)
      → IsU64 (length s + 9)
      → Calls
          (head_len (length s) + length s)
          (event_of (Token.text s))
          (dec_item m (write_int [] DiType.tstr (length s) ++ (s ++ rest)) ctx)
  unfolding dec_item dec_type dec_string event_of
  text-Calls s h =
      rw
        (
          get_type-write_int DiType.tstr (length s) (s ++ rest) (omega arith),
          read_str-string DiType.tstr s rest fresh (omega arith) h,
        )
        (refl, refl, ap (λ (t : List ℕ). m.proc (Event.text_string t) ctx) (content DiType.tstr s))

  simple-Calls :
      (n : ℕ)
      → InRange (Token.simple n)
      → Calls
          (if leb n 31 then 1 else 2)
          (Event.simple n)
          (dec_item m (write_simple [] n ++ rest) ctx)
  unfolding dec_item dec_type write_simple get_type simple_type read_int set_out_len
  simple-Calls n h = ground (arith, info_bits (224 + n), major_bits (224 + n))

  float16-Calls :
      (n : ℕ) → n < 2 ^ 16 → Calls 3 (Event.float16 n) (dec_item m (write_float16 [] n ++ rest) ctx)
  unfolding dec_item dec_type write_float16 get_type simple_type read_float set_out_len
  float16-Calls n h = ground arith

  float32-Calls :
      (n : ℕ) → n < 2 ^ 32 → Calls 5 (Event.float32 n) (dec_item m (write_float32 [] n ++ rest) ctx)
  unfolding dec_item dec_type write_float32 get_type simple_type read_float set_out_len
  float32-Calls n h = ground arith

  float64-Calls :
      (n : ℕ) → IsU64 n → Calls 9 (Event.float64 n) (dec_item m (write_float64 [] n ++ rest) ctx)
  unfolding dec_item dec_type write_float64 get_type simple_type read_float set_out_len
  float64-Calls n h = ground arith

  -- The head of a string and its bytes.
  length-string :
      (t : DiType) (s : List ℕ)
      → length (write_int [] t (length s) ++ s) ≡ head_len (length s) + length s
  unfolding write_int
  length-string t s = rw (length-append, length-int_head) refl

  length-simple : (n : ℕ) → length (write_simple [] n) ≡ (if leb n 31 then 1 else 2)
  unfolding write_simple
  length-simple n = ground arith

  -- The tokens of one byte.
  open_string-Calls :
      Calls 1 Event.byte_string_start (dec_item m (0x5f ∷ rest) ctx)
      × Calls 1 Event.text_string_start (dec_item m (0x7f ∷ rest) ctx)
  unfolding dec_item dec_type dec_string get_type read_str finish_str
  open_string-Calls = ground arith

  open_list-Calls :
      Calls 1 Event.indef_array_start (dec_item m (0x9f ∷ rest) ctx)
      × Calls 1 Event.indef_map_start (dec_item m (0xbf ∷ rest) ctx)
  unfolding dec_item dec_type dec_list get_type read_list set_out_len
  open_list-Calls = ground arith

  constant-Calls :
      (b : Bool)
      → Calls 1 (Event.boolean b) (dec_item m (write_bool [] b ++ rest) ctx)
        × Calls 1 Event.null (dec_item m (0xf6 ∷ rest) ctx)
        × Calls 1 Event.undefined (dec_item m (0xf7 ∷ rest) ctx)
  unfolding dec_item dec_type get_type simple_type write_bool
  constant-Calls true = ground arith
  constant-Calls false = ground arith

  -- A token that the encoder's functions wrote is read back: whatever bytes follow, the item has no
  -- error, takes exactly the token's bytes, and calls the method that is meant for the token with the
  -- token's value, provided that the token's numbers are in range.
  pub dec_item-write_token :
      (t : Token)
      → InRange t
      → Calls (length (write_token [] t)) (event_of t) (dec_item m (write_token [] t ++ rest) ctx)
  unfolding write_token write_int event_of write_bool write_indef write_null write_undef
  dec_item-write_token (Token.uint n) h = rw (length-int_head) (uint-Calls n h)
  dec_item-write_token (Token.nint n) h = rw (length-int_head) (nint-Calls n h)
  dec_item-write_token (Token.bytes s) h =
      rw (length-string DiType.bstr s, append_assoc) (bytes-Calls s h)
  dec_item-write_token (Token.text s) h =
      rw (length-string DiType.tstr s, append_assoc) (text-Calls s h)
  dec_item-write_token (Token.array_of n) h = rw (length-int_head) (array-Calls n h)
  dec_item-write_token (Token.map_of n) h = rw (length-int_head) (map-Calls n h)
  dec_item-write_token (Token.tag n) h = rw (length-int_head) (tag-Calls n h)
  dec_item-write_token (Token.simple n) h = rw (length-simple n) (simple-Calls n h)
  dec_item-write_token (Token.float16 n) h = float16-Calls n h
  dec_item-write_token (Token.float32 n) h = float32-Calls n h
  dec_item-write_token (Token.float64 n) h = float64-Calls n h
  dec_item-write_token Token.open_bytes h = open_string-Calls.0
  dec_item-write_token Token.open_text h = open_string-Calls.1
  dec_item-write_token Token.open_array h = open_list-Calls.0
  dec_item-write_token Token.open_map h = open_list-Calls.1
  dec_item-write_token (Token.boolean b) h = (constant-Calls b).0
  dec_item-write_token Token.null h = (constant-Calls true).1
  dec_item-write_token Token.undefined h = (constant-Calls true).2
