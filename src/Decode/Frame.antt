-- ===== src/Decode/Frame.antt =====
-- src/decode_base.h and src/decode.c: what holds of the context before an item holds after it, if
-- every method keeps it.
use php_ext_cbor.Base.{ℕ, ◌-◌, ◌≡◌, refl, Bool, true, false, List, [], ◌∷◌, ltb, leb, if-elim}
use php_ext_cbor.Codec.{CborError}
use php_ext_cbor.Di.{DiType, Decoded}
use php_ext_cbor.Di.Decoder.{get_type, read_int, read_str, read_list, read_float}
use php_ext_cbor.Decode.{Ctx, Event, Methods, StackItem, stack_pop_item, pop_from, set_error}
use php_ext_cbor.Decode.Item.{
  on_read, ItemResult, dec_type, dec_item, dec_list, close_item, is_indef, i64_of, i32_of,
}

-- The laws of a table of methods for a predicate on contexts: each call keeps it.
pub record Keeps {I U V : Type 0} (m : Methods I U V) (P : Ctx I U → Type 0) : Type 0 where
  pub on_proc : (e : Event) (c : Ctx I U) → P c → P (m.proc e c)
  pub on_break :
      (item : StackItem I) (rest : List (StackItem I)) (c : Ctx I U)
      → c.stack ≡ item ∷ rest
      → P c
      → P (
          m.proc_indef_break item
            (m.si_pop item (record c { stack = rest; stack_depth = c.stack_depth - 1 })))
  pub on_error : (e : CborError) (c : Ctx I U) → P c → P (set_error e c)

module _ {I U V : Type 0} (m : Methods I U V) (P : Ctx I U → Type 0) (keeps : Keeps m P)
    (bytes : List ℕ) (ctx : Ctx I U) (holds : P ctx) where
  on_read-Kept :
      (p : Bool × Decoded) (k : Decoded → ItemResult I U)
      → ((o : Decoded) → P (k o).2)
      → P (on_read m p ctx k).2
  on_read-Kept (true, o) k h = h o
  on_read-Kept (false, o) k h = holds

  dec_list-Kept :
      (counted : ℕ → Event) (start : Event) (o : Decoded) → P (dec_list m counted start o ctx).2
  unfolding dec_list
  dec_list-Kept counted start o =
      if-elim (λ (r : ItemResult I U). P r.2) (is_indef o.v) (keeps.on_proc _ _ holds)
        (if-elim (λ (r : ItemResult I U). P r.2) (ltb 0xffff_ffff (i64_of o.v)) holds
          (keeps.on_proc _ _ holds))

  close-Kept :
      (o : Decoded) (stack : List (StackItem I))
      → ctx.stack ≡ stack
      → P (close_item m o (pop_from m.si_pop stack ctx)).2
  unfolding close_item pop_from
  close-Kept o [] e = keeps.on_error _ _ holds
  close-Kept o (item ∷ rest) e = keeps.on_break item rest ctx e holds

  dec_type-Kept : (t : DiType) (o : Decoded) → P (dec_type m t bytes o ctx).2
  unfolding dec_type stack_pop_item
  dec_type-Kept DiType.uint o = on_read-Kept (read_int bytes o) _ λ o'. keeps.on_proc _ _ holds
  dec_type-Kept DiType.nint o = on_read-Kept (read_int bytes o) _ λ o'. keeps.on_proc _ _ holds
  dec_type-Kept DiType.bstr o = on_read-Kept (read_str bytes o) _ λ o'. keeps.on_proc _ _ holds
  dec_type-Kept DiType.tstr o = on_read-Kept (read_str bytes o) _ λ o'. keeps.on_proc _ _ holds
  dec_type-Kept DiType.array o =
      on_read-Kept (read_list bytes o) _ (dec_list-Kept Event.array_start Event.indef_array_start)
  dec_type-Kept DiType.map o =
      on_read-Kept (read_list bytes o) _ (dec_list-Kept Event.map_start Event.indef_map_start)
  dec_type-Kept DiType.tag o = on_read-Kept (read_int bytes o) _ λ o'. keeps.on_proc _ _ holds
  dec_type-Kept DiType.simple0 o = on_read-Kept (read_int bytes o) _ λ o'. keeps.on_proc _ _ holds
  dec_type-Kept DiType.simple8 o = on_read-Kept (read_int bytes o) _ λ o'.
      if-elim (λ (r : ItemResult I U). P r.2) (leb (i32_of o'.v) 31) holds (keeps.on_proc _ _ holds)
  dec_type-Kept DiType.float16 o = on_read-Kept (read_float bytes o) _ λ o'. keeps.on_proc _ _ holds
  dec_type-Kept DiType.float32 o = on_read-Kept (read_float bytes o) _ λ o'. keeps.on_proc _ _ holds
  dec_type-Kept DiType.float64 o = on_read-Kept (read_float bytes o) _ λ o'. keeps.on_proc _ _ holds
  dec_type-Kept DiType.break o = close-Kept o ctx.stack refl
  dec_type-Kept DiType.reserved o = holds
  dec_type-Kept _ o = keeps.on_proc _ _ holds

  -- An item keeps what every method keeps.
  pub dec_item-Kept : P (dec_item m bytes ctx).2
  unfolding dec_item
  dec_item-Kept = dec_type-Kept (get_type bytes) _
