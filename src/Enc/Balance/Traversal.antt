-- ===== src/Enc/Balance/Traversal.antt =====
-- `enc_traversable` of src/encode.c is balanced, if the call of `enc_zval` is.
use php_ext_cbor.Base.{
  ℕ, zero, suc, ◌+◌, ◌≡◌, refl, inl, inr, Bool-cases, true, Option, none, some, List, [], ltb, ◌==◌,
  if-elim,
}
use php_ext_cbor.Base.Int.{ℤ, pos, negsuc}
use php_ext_cbor.Codec.{has_flag, exception}
use php_ext_cbor.Codec.Flag
use php_ext_cbor.Di.{DiType}
use php_ext_cbor.Di.Encoder.{write_indef, write_int}
use php_ext_cbor.Zv.{Zval}
use php_ext_cbor.Enc.Hash.{protect}
use php_ext_cbor.Enc.{
  EncCtx, EncEngine, Call, Step, Iterator, Status, good, failed, Place, place_in, Bucket, ◌>>=◌,
}
use php_ext_cbor.Enc.Traverse.{
  Round, add_key, has_key, end_counted, finish_traversal, traverse_key, traverse_value, one_round,
  traverse, past_end, checked_count, start_round, traverse_all, enc_traversable,
}
use php_ext_cbor.Enc.Balance.{
  Same, Balanced, kept, gave_up, Same-refl, Balanced-Same, Balanced-bind, Balanced-unprotect,
  guarded, Encodes,
}
use php_ext_cbor.Enc.Balance.Ends.{goes_on, EndsWithin, ends_later}
use php_ext_cbor.Enc.Balance.Containers.{At, At-Same, enc_cde_map-Balanced}

add_key-Balanced :
    (c : EncCtx) (ht : List Bucket) {r : EncCtx × Status}
    → Balanced c r
    → Balanced c (add_key c.buf ht r).0
unfolding add_key
add_key-Balanced c ht (kept {c = d} h) = added c d ht h
  where
    added : (c d : EncCtx) (ht : List Bucket) → Same c d → Balanced c (add_key c.buf ht (d, good)).0
    added c d ht h = elim (Bool-cases (has_key d.buf ht)) [
      | inl e ↦ rw e gave_up
      | inr e ↦ rw e (kept h)
    ]
add_key-Balanced c ht gave_up = gave_up

end_counted-Balanced : (n : Option ℕ) (c : EncCtx) (i : ℕ) → Balanced c (end_counted n c i)
end_counted-Balanced none c i = kept (Same-refl c)
end_counted-Balanced (some n) c i = if-elim (Balanced c) (i == n) (kept (Same-refl c)) gave_up

module _ (enc : EncCtx → Zval → EncCtx × Status) {limit level : ℕ}
    (ok : Encodes limit level enc) where
  finish-Balanced :
      (e : EncEngine) (n : Option ℕ) (c : EncCtx) (o : Option (List Bucket)) (i : ℕ)
      → At limit level c
      → Balanced c (finish_traversal enc e n c (record { keys_ht = o; index = i }))
  unfolding finish_traversal
  finish-Balanced e n c none i h = end_counted-Balanced n c i
  finish-Balanced e n c (some ht) i h =
      if-elim (Balanced c) (has_flag c.args.e_flags Flag.cde) (enc_cde_map-Balanced enc ok e c ht h)
        (end_counted-Balanced n c i)

  key-Balanced :
      (c : EncCtx) (o : Option (List Bucket)) (i : ℕ) (v : Zval)
      → At limit level c
      → Balanced c (traverse_key enc c (record { keys_ht = o; index = i }) v).0
  unfolding traverse_key
  key-Balanced c none i v h = ok c v h.0 h.1
  key-Balanced c (some ht) i v h =
      add_key-Balanced c ht (Balanced-Same (Same-refl c) (ok (record c { buf = [] }) v h.0 h.1))

  value-Balanced :
      (c : EncCtx) (o : Option (List Bucket)) (i : ℕ) (v : Zval)
      → At limit level c
      → Balanced c (traverse_value enc c (record { keys_ht = o; index = i }) v).0
  unfolding traverse_value
  value-Balanced c none i v h = ok c v h.0 h.1
  value-Balanced c (some ht) i v h = elim (Bool-cases (has_flag c.args.e_flags Flag.cde)) [
    | inl e ↦ rw e (kept (Same-refl c))
    | inr e ↦ rw e (ok c v h.0 h.1)
  ]

  key_round :
      (c : EncCtx) (round : Round) (v : Zval)
      → At limit level c
      → Balanced c (traverse_key enc c round v).0
  key_round c round v h = key-Balanced c round.keys_ht round.index v h

  value_round :
      (c : EncCtx) (round : Round) (v : Zval)
      → At limit level c
      → Balanced c (traverse_value enc c round v).0
  value_round c round v h = value-Balanced c round.keys_ht round.index v h

  one_round-Balanced :
      (e : EncEngine) (n : Option ℕ) (more : EncCtx → Round → EncCtx × Status) (c : EncCtx)
      (round : Round) (s : Step)
      → At limit level c
      → (goes_on s ≡ true → (d : EncCtx) (r : Round) → At limit level d → Balanced d (more d r))
      → Balanced c (one_round enc e n more c round s)
  unfolding one_round
  one_round-Balanced e n more c round Step.done h next =
      finish-Balanced e n c round.keys_ht round.index h
  one_round-Balanced e n more c round Step.raised h next = gave_up
  one_round-Balanced e n more c round Step.key_raised h next =
      if-elim (λ s. Balanced c (c, s)) (past_end n round.index) gave_up gave_up
  one_round-Balanced e n more c round (Step.value_raised k) h next =
      if-elim (Balanced c) (past_end n round.index) gave_up
        (Balanced-bind (λ c. (c, failed exception)) (key_round c round k h) (λ c' s. gave_up))
  one_round-Balanced e n more c round (Step.item k v) h next =
      if-elim (Balanced c) (past_end n round.index) gave_up (
        Balanced-bind
          (λ ctx. (traverse_value enc ctx (traverse_key enc c round k).1 v).0 >>= λ d.
            more d (traverse_value enc ctx (traverse_key enc c round k).1 v).1)
          (key_round c round k h)
          (λ c' s.
            let round' = (traverse_key enc c round k).1 in
            let h' = At-Same c c' h s in
            Balanced-Same s (
              Balanced-bind (λ d. more d (traverse_value enc c' round' v).1)
                (value_round c' round' v h')
                (λ c'' s'.
                  Balanced-Same s'
                    (next refl c'' (traverse_value enc c' round' v).1 (At-Same c' c'' h' s'))))))

  traverse-Balanced :
      (e : EncEngine) (n : Option ℕ) (fuel : ℕ) (it : Iterator) (i : ℕ) (c : EncCtx) (round : Round)
      → EndsWithin fuel it i
      → At limit level c
      → Balanced c (traverse enc e n fuel it i c round)
  unfolding traverse
  traverse-Balanced e n zero it i c round ends h = absurd ends
  traverse-Balanced e n (suc fuel) it i c round ends h =
      one_round-Balanced e n (λ c r. traverse enc e n fuel it (i + 1) c r) c round (it i) h
        (λ on d r h'. traverse-Balanced e n fuel it (i + 1) d r (ends_later fuel it i ends on) h')

  checked-Balanced : (c : EncCtx) (m : ℕ) (call : Call ℤ) → Balanced c (c, (checked_count m call).0)
  checked-Balanced c m Call.not_called = gave_up
  checked-Balanced c m Call.raises = gave_up
  checked-Balanced c m (Call.returns (negsuc n)) = gave_up
  checked-Balanced c m (Call.returns (pos n)) = elim (Bool-cases (ltb m n)) [
    | inl e ↦ rw e gave_up
    | inr e ↦ rw e (kept (Same-refl c))
  ]

  all-Balanced :
      (e : EncEngine) (c : EncCtx) (o : Option (Call ℤ)) (it : Iterator)
      → EndsWithin e.rounds it 0
      → At limit level c
      → Balanced c (traverse_all enc e c o it)
  unfolding traverse_all
  all-Balanced e c none it ends h = elim (Bool-cases (has_flag c.args.e_flags Flag.cde)) [
    | inl b ↦ rw b (traverse-Balanced e none e.rounds it 0 c (start_round c true) ends h)
    | inr b ↦ rw b (
        Balanced-Same (Same-refl c) (
          traverse-Balanced e none e.rounds it 0 (record c { buf = write_indef c.buf DiType.map })
            (start_round c true) ends h))
  ]
  all-Balanced e c (some call) it ends h =
      let count = (checked_count e.count_max call).1 in
      if-elim (Balanced c) (has_flag c.args.e_flags Flag.cde)
        (traverse-Balanced e none e.rounds it 0 c (start_round c true) ends h)
        (Balanced-bind
          (λ ctx.
            traverse enc e (some count) e.rounds it 0
              (record ctx { buf = write_int ctx.buf DiType.map count })
              (start_round ctx (ltb 0 count)))
          (checked-Balanced c e.count_max call)
          (λ c' s.
            let inner : EncCtx = record c' { buf = write_int c'.buf DiType.map count } in
            Balanced-Same {b = inner} s (
              traverse-Balanced e (some count) e.rounds it 0 inner (start_round c' (ltb 0 count))
                ends (At-Same c c' h s))))

  pub enc_traversable-Balanced :
      (e : EncEngine) (c : EncCtx) (p : Place) (o : Option (Call ℤ)) (it : Iterator)
      → EndsWithin e.rounds it 0
      → At limit level c
      → Balanced c (enc_traversable enc e c p o it)
  unfolding enc_traversable
  enc_traversable-Balanced e c p o it ends h =
      guarded (Balanced c) (place_in p c.protected) gave_up (λ free.
        Balanced-unprotect c (some p) free (all-Balanced e (protect (some p) c) o it ends h))
