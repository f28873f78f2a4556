-- ===== src/Decode/Reads.antt =====
-- src/decode_base.h: an item that is read without error takes a byte at least and stays inside the
-- input, whatever the methods do.
use php_ext_cbor.Base.{
  ℕ, ◌≤◌, ◌<◌, ◌≡◌, refl, Bool, true, false, Option, none, some, List, length, arith,
}
use php_ext_cbor.Codec.{CborError}
use php_ext_cbor.Di.{DiType, Decoded}
use php_ext_cbor.Di.Decoder.{get_type, read_int, read_str, read_list, read_float, finish_str}
use php_ext_cbor.Decode.{Ctx, Event, Methods, StackItem, stack_pop_item}
use php_ext_cbor.Decode.Item.{
  on_read, ItemResult, dec_type, dec_item, dec_list, dec_break, close_item,
}

-- After a read that answered `b`: `n` bytes of an input that has `len`, one at least on success.
abbrev pub Takes : Bool → ℕ → ℕ → Type 0
Takes b n len = (n ≤ len) × (b ≡ true → 1 ≤ n)

module _ (bytes : List ℕ) (out o : Decoded) (b : Bool) where
  read_int-Takes : read_int bytes out ≡ (b, o) → Takes b o.read_len (length bytes)
  unfolding read_int
  read_int-Takes e = ground arith

  read_list-Takes : read_list bytes out ≡ (b, o) → Takes b o.read_len (length bytes)
  unfolding read_list
  read_list-Takes e = ground arith

  read_float-Takes : read_float bytes out ≡ (b, o) → Takes b o.read_len (length bytes)
  unfolding read_float
  read_float-Takes e = ground arith

  read_str-Takes :
      0 < length bytes
      → out.read_len ≡ 1
      → read_str bytes out ≡ (b, o)
      → Takes b o.read_len (length bytes)
  unfolding read_str finish_str
  read_str-Takes pos h e = ground arith

module _ {I U V : Type 0} (m : Methods I U V) (bytes : List ℕ) (ctx : Ctx I U)
    (pos : 0 < length bytes) where
  -- The statement for one item: it stays inside the input, and takes a byte if there is no error.
  abbrev pub Reads : ItemResult I U → Type 0
  Reads r = (r.1.read_len ≤ length bytes) × (r.0 ≡ none → 1 ≤ r.1.read_len)

  on_read-Reads :
      (p : Bool × Decoded) (k : Decoded → ItemResult I U)
      → ((o : Decoded) (b : Bool) → p ≡ (b, o) → Takes b o.read_len (length bytes))
      → ((o : Decoded) → Takes true o.read_len (length bytes) → Reads (k o))
      → Reads (on_read m p ctx k)
  on_read-Reads (true, o) k h g = g o (h o true refl)
  on_read-Reads (false, o) k h g = ((h o false refl).0, λ e. cc)

  dec_list-Reads :
      (counted : ℕ → Event) (start : Event) (o : Decoded)
      → Takes true o.read_len (length bytes)
      → Reads (dec_list m counted start o ctx)
  unfolding dec_list
  dec_list-Reads counted start o h = ground arith

  close_item-Reads :
      (p : Option (StackItem I) × Ctx I U) (o : Decoded) → o.read_len ≡ 1 → Reads (close_item m o p)
  unfolding close_item
  close_item-Reads (none, c) o h = omega arith
  close_item-Reads (some item, c) o h = omega arith

  -- An item whose method is called as soon as the head is read.
  called :
      (o : Decoded)
      → Takes true o.read_len (length bytes)
      → (o.read_len ≤ length bytes) × (◌≡◌ {A = Option CborError} none none → 1 ≤ o.read_len)
  called o h = (h.0, λ e. h.1 refl)

  dec_type-Reads : (t : DiType) (o : Decoded) → o.read_len ≡ 1 → Reads (dec_type m t bytes o ctx)
  unfolding dec_type dec_break
  dec_type-Reads DiType.uint o h =
      on_read-Reads (read_int bytes o) _ (λ o' b. read_int-Takes bytes o o' b) λ o' t. called o' t
  dec_type-Reads DiType.nint o h =
      on_read-Reads (read_int bytes o) _ (λ o' b. read_int-Takes bytes o o' b) λ o' t. called o' t
  dec_type-Reads DiType.bstr o h =
      on_read-Reads (read_str bytes o) _ (λ o' b. read_str-Takes bytes o o' b pos h)
        λ o' t. called o' t
  dec_type-Reads DiType.tstr o h =
      on_read-Reads (read_str bytes o) _ (λ o' b. read_str-Takes bytes o o' b pos h)
        λ o' t. called o' t
  dec_type-Reads DiType.array o h =
      on_read-Reads (read_list bytes o) _ (λ o' b. read_list-Takes bytes o o' b)
        (dec_list-Reads Event.array_start Event.indef_array_start)
  dec_type-Reads DiType.map o h =
      on_read-Reads (read_list bytes o) _ (λ o' b. read_list-Takes bytes o o' b)
        (dec_list-Reads Event.map_start Event.indef_map_start)
  dec_type-Reads DiType.tag o h =
      on_read-Reads (read_int bytes o) _ (λ o' b. read_int-Takes bytes o o' b) λ o' t. called o' t
  dec_type-Reads DiType.simple0 o h =
      on_read-Reads (read_int bytes o) _ (λ o' b. read_int-Takes bytes o o' b) λ o' t. called o' t
  dec_type-Reads DiType.simple8 o h =
      on_read-Reads (read_int bytes o) _ (λ o' b. read_int-Takes bytes o o' b) λ o' t. ground arith
  dec_type-Reads DiType.float16 o h =
      on_read-Reads (read_float bytes o) _ (λ o' b. read_float-Takes bytes o o' b)
        λ o' t. called o' t
  dec_type-Reads DiType.float32 o h =
      on_read-Reads (read_float bytes o) _ (λ o' b. read_float-Takes bytes o o' b)
        λ o' t. called o' t
  dec_type-Reads DiType.float64 o h =
      on_read-Reads (read_float bytes o) _ (λ o' b. read_float-Takes bytes o o' b)
        λ o' t. called o' t
  dec_type-Reads DiType.break o h = close_item-Reads (stack_pop_item m.si_pop ctx) o h
  dec_type-Reads DiType.reserved o h = (omega arith, λ e. cc)
  dec_type-Reads _ o h = omega arith

  -- An item stays inside the input, and takes a byte at least if there is no error.
  pub dec_item-Reads : Reads (dec_item m bytes ctx)
  unfolding dec_item
  dec_item-Reads = dec_type-Reads (get_type bytes) _ refl
