-- ===== src/Enc/Balance/Containers.antt =====
-- The functions of src/encode.c that encode values by a call of `enc_zval`: they are balanced, if that
-- call is.
use php_ext_cbor.Base.{
  ℕ, ◌≡◌, ap, ◌∙◌, Bool, false, not, ◌&&◌, Option, none, some, List, [], ◌∷◌, ◌++◌, ltb, leb, ◌==◌,
  if◌then◌else◌, if-elim,
}
use php_ext_cbor.Base.Int.{ℤ, pos, negsuc}
use php_ext_cbor.Codec.{has_flag, tag_value}
use php_ext_cbor.Codec.Flag
use php_ext_cbor.Codec.Tag
use php_ext_cbor.Options.Encoding.{EncodeArgs}
use php_ext_cbor.Zv.{Key, Zval, Entries, end, entry}
use php_ext_cbor.Zv.Table.{num_elements}
use php_ext_cbor.Enc.{
  EncCtx, EncEngine, Heap, Srns, Call, Status, good, failed, Place, place_in, Bucket,
}
use php_ext_cbor.Enc.Strings.{new_srns}
use php_ext_cbor.Enc.Hash.{
  enc_key, enc_buckets, enc_cde_map, enc_entries, enc_sorted, enc_cde_hash, enc_plain_hash,
  enc_hash, is_list_from, is_recursive, protect, unprotect,
}
use php_ext_cbor.Enc.Shared.{
  enc_shareable, nested_shareable, leave_ns, check_string_ref, enc_content, enc_tag,
}
use php_ext_cbor.Enc.Traverse.{enc_serializable}
use php_ext_cbor.Enc.Balance.{
  Same, Balanced, kept, gave_up, Same-refl, Balanced-Same, Balanced-bind, Balanced-followed,
  Balanced-unprotect, guarded, Encodes,
}
use php_ext_cbor.Enc.Balance.Parts.{enc_key-Balanced, enc_ref_counted-Balanced, collect-Balanced}

-- A context with the limit and the depth at which values are encoded.
abbrev pub At : ℕ → ℕ → EncCtx → Type 0
At limit level c = (c.args.max_depth ≡ limit) × (c.cur_depth ≡ level)

pub At-Same : {limit level : ℕ} (a b : EncCtx) → At limit level a → Same a b → At limit level b
At-Same a b h s = (ap (λ (x : EncodeArgs). x.max_depth) s.0 ∙ h.0, s.1 ∙ h.1)

module _ (enc : EncCtx → Zval → EncCtx × Status) {limit level : ℕ}
    (ok : Encodes limit level enc) where
  enc_buckets-Balanced :
      (c : EncCtx) (ht : List Bucket) → At limit level c → Balanced c (enc_buckets enc c ht)
  unfolding enc_buckets
  enc_buckets-Balanced c [] h = kept (Same-refl c)
  enc_buckets-Balanced c ((k, v) ∷ ht) h =
      Balanced-bind _ (Balanced-Same (Same-refl c) (ok (record c { buf = c.buf ++ k }) v h.0 h.1))
        (λ c' s. Balanced-Same s (enc_buckets-Balanced c' ht (At-Same c c' h s)))

  pub enc_cde_map-Balanced :
      (e : EncEngine) (c : EncCtx) (ht : List Bucket)
      → At limit level c
      → Balanced c (enc_cde_map enc e c ht)
  unfolding enc_cde_map
  enc_cde_map-Balanced e c ht h =
      Balanced-Same (Same-refl c) (enc_buckets-Balanced (record c { buf = _ }) _ h)

  -- A key in front of a value, but in a list.
  key_first : (c : EncCtx) (b : Bool) (k : Key) → Balanced c (if b then (c, good) else enc_key c k)
  key_first c b k = if-elim (Balanced c) b (kept (Same-refl c)) (enc_key-Balanced c k)

  enc_entries-Balanced :
      (b : Bool) (c : EncCtx) (es : Entries)
      → At limit level c
      → Balanced c (enc_entries enc b c es)
  unfolding enc_entries
  enc_entries-Balanced b c end h = kept (Same-refl c)
  enc_entries-Balanced b c (entry k v es) h = Balanced-bind _ (key_first c b k) (λ c' s.
      Balanced-Same s (
        let h' = At-Same c c' h s in
        Balanced-bind _ (ok c' v h'.0 h'.1)
          (λ c'' s'. Balanced-Same s' (enc_entries-Balanced b c'' es (At-Same c' c'' h' s')))))

  pub At-protect : (c : EncCtx) (p : Option Place) → At limit level c → At limit level (protect p c)
  At-protect c none h = h
  At-protect c (some p) h = h

  enc_sorted-Balanced :
      (e : EncEngine) (c : EncCtx) {r : EncCtx × Status} (ht : List Bucket)
      → At limit level c
      → Balanced c r
      → Balanced c (enc_sorted enc e (r, ht))
  unfolding enc_sorted
  enc_sorted-Balanced e c ht h b =
      Balanced-bind _ b (λ c' s. Balanced-Same s (enc_cde_map-Balanced e c' ht (At-Same c c' h s)))

  enc_cde_hash-Balanced :
      (e : EncEngine) (c : EncCtx) (p : Option Place) (es : Entries)
      → At limit level c
      → is_recursive c p ≡ false
      → Balanced c (enc_cde_hash enc e c p es)
  unfolding enc_cde_hash
  enc_cde_hash-Balanced e c p es h free = enc_sorted-Balanced e c _ h (
      Balanced-unprotect c p free
        (collect-Balanced (protect p c) es [] (kept (Same-refl (protect p c)))))

  -- The head of a container before its entries.
  Balanced-head :
      (c : EncCtx) (p : Option Place) (b : List ℕ) {r : EncCtx × Status}
      → is_recursive c p ≡ false
      → Balanced (protect p (record c { buf = b })) r
      → Balanced c (unprotect p r)
  Balanced-head c none b free h =
      Balanced-Same (Same-refl c) (Balanced-unprotect (record c { buf = b }) none free h)
  Balanced-head c (some p) b free h =
      Balanced-Same (Same-refl c) (Balanced-unprotect (record c { buf = b }) (some p) free h)

  enc_plain_hash-Balanced :
      (c : EncCtx) (p : Option Place) (b : Bool) (es : Entries)
      → At limit level c
      → is_recursive c p ≡ false
      → Balanced c (enc_plain_hash enc c p b es)
  unfolding enc_plain_hash
  enc_plain_hash-Balanced c p b es h free =
      Balanced-head c p _ free (enc_entries-Balanced b _ es (At-protect (record c { buf = _ }) p h))

  pub enc_hash-Balanced :
      (e : EncEngine) (c : EncCtx) (p : Option Place) (b : Bool) (es : Entries)
      → At limit level c
      → Balanced c (enc_hash enc e c p b es)
  unfolding enc_hash
  enc_hash-Balanced e c p b es h =
      let is_list = b && is_list_from 0 es in
      guarded (Balanced c) (is_recursive c p) gave_up (λ free.
        if-elim (Balanced c)
          (ltb 0 (num_elements es) && has_flag c.args.e_flags Flag.cde && not is_list)
          (enc_cde_hash-Balanced e c p es h free) (enc_plain_hash-Balanced c p is_list es h free))

  pub enc_shareable-Balanced :
      (heap : Heap) (c : EncCtx) (p : Place) (v : Zval)
      → At limit level c
      → Balanced c (enc_shareable enc heap c p v)
  unfolding enc_shareable
  enc_shareable-Balanced heap c p v h =
      if-elim (Balanced c) (has_flag c.args.e_flags Flag.cde) gave_up (
        Balanced-followed
          (λ ctx. if nested_shareable heap v then (ctx, failed tag_value) else enc ctx v)
          (enc_ref_counted-Balanced c p)
          (λ c' s.
            let h' = At-Same c c' h s in
            if-elim (Balanced c) (nested_shareable heap v) gave_up
              (Balanced-Same s (ok c' v h'.0 h'.1))))

  leave_ns-Balanced :
      (c : EncCtx) (n : Option Srns) {r : EncCtx × Status}
      → Balanced c r
      → Balanced c (leave_ns n r)
  leave_ns-Balanced c n (kept h) = kept h
  leave_ns-Balanced c n gave_up = gave_up

  -- The content of a tag 25 is checked, and nothing is written.
  check-Balanced :
      (c : EncCtx) (o : Option Srns) (v : Zval) → Balanced c (c, check_string_ref c o v)
  unfolding check_string_ref
  check-Balanced c none (Zval.long n) = gave_up
  check-Balanced c (some n) (Zval.long (pos k)) =
      if-elim (λ s. Balanced c (c, s)) (leb n.next_index k) gave_up (kept (Same-refl c))
  check-Balanced c (some n) (Zval.long (negsuc k)) = gave_up
  check-Balanced c none _ = gave_up
  check-Balanced c (some n) _ = gave_up

  enc_content-Balanced :
      (c : EncCtx) (n : ℕ) (v : Zval) → At limit level c → Balanced c (enc_content enc c n v)
  unfolding enc_content
  enc_content-Balanced c n v h =
      if-elim (Balanced c) ((n == Tag.string_ref_ns) && ltb 0 c.args.string_ref)
        (leave_ns-Balanced c c.srns
          (Balanced-Same (Same-refl c) (ok (record c { srns = some new_srns }) v h.0 h.1)))
        (if-elim (Balanced c) ((n == Tag.string_ref) && ltb 0 c.args.string_ref)
          (Balanced-bind _ (check-Balanced c c.srns v)
            (λ c' s. let h' = At-Same c c' h s in Balanced-Same s (ok c' v h'.0 h'.1)))
          (ok c v h.0 h.1))

  pub enc_tag-Balanced :
      (c : EncCtx) (n : ℤ) (v : Zval) → At limit level c → Balanced c (enc_tag enc c n v)
  unfolding enc_tag
  enc_tag-Balanced c (negsuc n) v h = gave_up
  enc_tag-Balanced c (pos n) v h =
      Balanced-Same (Same-refl c) (enc_content-Balanced (record c { buf = _ }) n v h)

  -- A value under the protection of its object.
  pub protected-Balanced :
      (c : EncCtx) (p : Place) (v : Zval)
      → At limit level c
      → place_in p c.protected ≡ false
      → Balanced c (unprotect (some p) (enc (protect (some p) c) v))
  protected-Balanced c p v h free =
      Balanced-unprotect c (some p) free (ok (protect (some p) c) v h.0 h.1)

  pub enc_serializable-Balanced :
      (c : EncCtx) (p : Place) (call : Call Zval)
      → At limit level c
      → Balanced c (enc_serializable enc c p call)
  unfolding enc_serializable
  enc_serializable-Balanced c p Call.not_called h =
      if-elim (Balanced c) (place_in p c.protected) gave_up gave_up
  enc_serializable-Balanced c p Call.raises h =
      if-elim (Balanced c) (place_in p c.protected) gave_up gave_up
  enc_serializable-Balanced c p (Call.returns v) h =
      guarded (Balanced c) (place_in p c.protected) gave_up (protected-Balanced c p v h)
