-- ===== src/Enc/Hash/Order.antt =====
-- src/encode.c, `enc_hash` and `enc_cde_map` with CBOR_CDE: the order of the entries does not matter.
use mathlib.Core.List.{Permᴰ}
use mathlib.Core.List.Permᴰ
use php_ext_cbor.Base.{
  ℕ, suc, ◌≡◌, ◌<◌, inl, inr, refl, ap, sym, ◌∙◌, true, false, Option, List, [], ◌∷◌, ◌++◌, ltb,
  length, Bool-cases, arith, append-nil, append_assoc,
}
use php_ext_cbor.Codec.{has_flag}
use php_ext_cbor.Codec.Flag
use php_ext_cbor.Zv.{Key, Zval, Entries, end, entry}
use php_ext_cbor.Zv.Table.{num_elements}
use php_ext_cbor.Enc.{EncCtx, EncEngine, Status, good, failed, no_fuel, ◌>>=◌, Place, Bucket}
use php_ext_cbor.Enc.Hash.{
  bucket_le, enc_key, add_bucket, collect, enc_cde_map, enc_sorted, enc_cde_hash, enc_hash, protect,
  unprotect, is_recursive,
}
use php_ext_cbor.Enc.Hash.Tables.{Ordered, Distinct, perm_mem, Distinct-perm, Ordered-unique}

abbrev pub pairs : Entries → List (Key × Zval)
pairs end = []
pairs (entry k v es) = (k, v) ∷ pairs es

-- The table of the encoded keys with their values; encoding a key changes nothing but the buffer.
pub data Buckets (c : EncCtx) : List (Key × Zval) → List Bucket → Type 0 where
  no_entry : Buckets c [] []
  one_more :
      {p : Key × Zval} {b : List ℕ} {ps : List (Key × Zval)} {ht : List Bucket}
      → enc_key (record c { buf = [] }) p.0 ≡ (record c { buf = b }, good)
      → Buckets c ps ht
      → Buckets c (p ∷ ps) ((b, p.1) ∷ ht)

collect-Buckets :
    (c : EncCtx) (es : Entries) (before ht : List Bucket)
    → Buckets c (pairs es) ht
    → collect ((c, good), before) es ≡ ((c, good), before ++ ht)
unfolding collect add_bucket
collect-Buckets c end before [] no_entry =
    ap (λ (t : List Bucket). ((c, good), t)) (sym (append-nil before))
collect-Buckets c end before (b ∷ ht) h = elim h [ ]
collect-Buckets c (entry k v es) before [] h = elim h [ ]
collect-Buckets c (entry k v es) before (b ∷ ht) (one_more h rest) = rw h (
    collect-Buckets c es (before ++ b ∷ []) ht rest
    ∙ ap (λ (t : List Bucket). ((c, good), t)) (append_assoc before (b ∷ []) ht))

Buckets-unique :
    (c : EncCtx) {ps : List (Key × Zval)} {ht ht' : List Bucket}
    → Buckets c ps ht
    → Buckets c ps ht'
    → ht ≡ ht'
Buckets-unique c no_entry no_entry = refl
Buckets-unique c (one_more {p = p} {b = b} {ht = t} h rest) (one_more {b = b'} {ht = t'} k rest') =
    let bytes : b ≡ b' = ap (λ (r : EncCtx × Status). r.0.buf) (sym h ∙ k) in
    let more : t ≡ t' = Buckets-unique c rest rest' in cc

-- The table for the entries in another order.
Buckets-perm :
    (c : EncCtx) {ps qs : List (Key × Zval)} {ht : List Bucket}
    → Permᴰ ps qs
    → Buckets c ps ht
    → (ht' : List Bucket) × Buckets c qs ht' × Permᴰ ht ht'
Buckets-perm c Permᴰ.nil no_entry = ([], no_entry, Permᴰ.nil)
Buckets-perm c (Permᴰ.cons {b = q} e p) (one_more {b = b} h rest) =
    let (ht, written, perm) = Buckets-perm c p rest in
    (
      (b, q.1) ∷ ht,
      one_more (rw e at h) written,
      Permᴰ.cons (ap (λ (x : Key × Zval). (b, x.1)) e) perm,
    )
Buckets-perm c (Permᴰ.swap {a' = q} {b' = r} e f)
      (one_more {b = b} h (one_more {b = d} {ht = ht} k rest)) =
    (
      (d, q.1) ∷ (b, r.1) ∷ ht,
      one_more (rw f at k) (one_more (rw e at h) rest),
      Permᴰ.swap (ap (λ (x : Key × Zval). (b, x.1)) e) (ap (λ (x : Key × Zval). (d, x.1)) f),
    )
Buckets-perm c (Permᴰ.trans p q) h =
    let (ht, written, perm) = Buckets-perm c p h in
    let (ht', written', perm') = Buckets-perm c q written in (ht', written', Permᴰ.trans perm perm')

perm_length : {A : Type 0} {l m : List A} → Permᴰ l m → length l ≡ length m
perm_length Permᴰ.nil = refl
perm_length (Permᴰ.cons e p) = ap suc (perm_length p)
perm_length (Permᴰ.swap e f) = refl
perm_length (Permᴰ.trans p q) = perm_length p ∙ perm_length q

num_elements-pairs : (es : Entries) → num_elements es ≡ length (pairs es)
unfolding num_elements
num_elements-pairs end = refl
num_elements-pairs (entry k v es) = ap suc (num_elements-pairs es)

-- What the engine's sort makes of a table.
pub record IsSorted (engine : EncEngine) (ht : List Bucket) : Type 0 where
  pub ordered : Ordered (engine.hash_sort bucket_le ht)
  pub same : Permᴰ (engine.hash_sort bucket_le ht) ht

sorted_unique :
    (engine : EncEngine) (ht ht' : List Bucket)
    → Permᴰ ht ht'
    → Distinct ht
    → IsSorted engine ht
    → IsSorted engine ht'
    → engine.hash_sort bucket_le ht ≡ engine.hash_sort bucket_le ht'
sorted_unique engine ht ht' p d s s' =
    let across = Permᴰ.trans s.same (Permᴰ.trans p (Permᴰ.symm s'.same)) in
    Ordered-unique (engine.hash_sort bucket_le ht) (engine.hash_sort bucket_le ht') s.ordered
      s'.ordered (Distinct-perm (Permᴰ.symm s.same) d)
      (Distinct-perm (Permᴰ.trans p (Permᴰ.symm s'.same)) d) (λ b h. perm_mem across h)
      (λ b h. perm_mem (Permᴰ.symm across) h)

module _ (enc : EncCtx → Zval → EncCtx × Status) (engine : EncEngine) where
  collected :
      (ctx : EncCtx) (place : Option Place) (es : Entries) (ht : List Bucket)
      → Buckets (protect place ctx) (pairs es) ht
      → enc_cde_hash enc engine ctx place es
        ≡ (unprotect place (protect place ctx, good) >>= λ c. enc_cde_map enc engine c ht)
  unfolding enc_cde_hash enc_sorted
  collected ctx place es ht h = rw (collect-Buckets (protect place ctx) es [] ht h) refl

  enc_cde_map-order :
      (ctx : EncCtx) (ht ht' : List Bucket)
      → length ht ≡ length ht'
      → engine.hash_sort bucket_le ht ≡ engine.hash_sort bucket_le ht'
      → enc_cde_map enc engine ctx ht ≡ enc_cde_map enc engine ctx ht'
  unfolding enc_cde_map
  enc_cde_map-order ctx ht ht' l e = rw (l, e) refl

  enc_cde_map-after :
      (r : EncCtx × Status) (ht ht' : List Bucket)
      → length ht ≡ length ht'
      → engine.hash_sort bucket_le ht ≡ engine.hash_sort bucket_le ht'
      → (r >>= λ c. enc_cde_map enc engine c ht) ≡ (r >>= λ c. enc_cde_map enc engine c ht')
  enc_cde_map-after (c, good) ht ht' l e = enc_cde_map-order c ht ht' l e
  enc_cde_map-after (c, failed x) ht ht' l e = refl
  enc_cde_map-after (c, no_fuel) ht ht' l e = refl

  enc_cde_hash-order :
      (ctx : EncCtx) (place : Option Place) (es es' : Entries) (ht ht' : List Bucket)
      → Permᴰ (pairs es) (pairs es')
      → Buckets (protect place ctx) (pairs es) ht
      → Buckets (protect place ctx) (pairs es') ht'
      → Distinct ht
      → IsSorted engine ht
      → IsSorted engine ht'
      → enc_cde_hash enc engine ctx place es ≡ enc_cde_hash enc engine ctx place es'
  enc_cde_hash-order ctx place es es' ht ht' p written written' d s s' =
      let (table, again, perm) = Buckets-perm (protect place ctx) p written in
      let same : table ≡ ht' = Buckets-unique (protect place ctx) again written' in
      let across : Permᴰ ht ht' = rw same at perm in
      collected ctx place es ht written
      ∙ enc_cde_map-after (unprotect place (protect place ctx, good)) ht ht' (perm_length across)
          (sorted_unique engine ht ht' across d s s')
      ∙ sym (collected ctx place es' ht' written')

  nonempty-order :
      (ctx : EncCtx) (place : Option Place) (es es' : Entries) (ht ht' : List Bucket)
      → has_flag ctx.args.e_flags Flag.cde ≡ true
      → 0 < num_elements es
      → Permᴰ (pairs es) (pairs es')
      → Buckets (protect place ctx) (pairs es) ht
      → Buckets (protect place ctx) (pairs es') ht'
      → Distinct ht
      → IsSorted engine ht
      → IsSorted engine ht'
      → enc_hash enc engine ctx place false es ≡ enc_hash enc engine ctx place false es'
  unfolding enc_hash
  nonempty-order ctx place es es' ht ht' cde full p written written' d s s' =
      let n = num_elements-pairs es ∙ perm_length p ∙ sym (num_elements-pairs es') in
      let some_of : ltb 0 (num_elements es) ≡ true = ground arith in
      let some_of' : ltb 0 (num_elements es') ≡ true = ground (arith, n) in
      elim (Bool-cases (is_recursive ctx place)) [
        | inl e ↦ rw e refl
        | inr e ↦
            rw (e, cde, some_of, some_of')
              (enc_cde_hash-order ctx place es es' ht ht' p written written' d s s')
      ]

  -- Under CBOR_CDE the bytes of an object of `stdClass`, and every other outcome of writing it, do not
  -- depend on the order of its entries: if all its keys are encoded into a table, no two of them alike,
  -- and the engine's sort orders the tables of both orders by the bytes of the keys.
  pub enc_hash-order :
      (ctx : EncCtx) (place : Option Place) (es es' : Entries) (ht ht' : List Bucket)
      → has_flag ctx.args.e_flags Flag.cde ≡ true
      → Permᴰ (pairs es) (pairs es')
      → Buckets (protect place ctx) (pairs es) ht
      → Buckets (protect place ctx) (pairs es') ht'
      → Distinct ht
      → IsSorted engine ht
      → IsSorted engine ht'
      → enc_hash enc engine ctx place false es ≡ enc_hash enc engine ctx place false es'
  unfolding num_elements
  enc_hash-order ctx place end end ht ht' cde p written written' d s s' = refl
  enc_hash-order ctx place end (entry k v es') ht ht' cde p written written' d s s' =
      absurd (omega (arith, perm_length p))
  enc_hash-order ctx place (entry k v es) es' ht ht' cde p written written' d s s' =
      nonempty-order ctx place (entry k v es) es' ht ht' cde (omega arith) p written written' d s s'
