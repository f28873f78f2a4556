-- ===== src/Enc/Hash/Tables.antt =====
-- src/encode.c, the comparison of `enc_cde_map`: an ordered table is the only one with its buckets.
use mathlib.Core.List.{Memᴰ, Permᴰ}
use mathlib.Core.List.Permᴰ
use php_ext_cbor.Base.{ℕ, ◌≡◌, ◌≢◌, refl, ap, sym, ◌∙◌, true, List, [], ◌∷◌, arith}
use php_ext_cbor.Enc.{Bucket}
use php_ext_cbor.Enc.Hash.{key_le, bucket_le}

abbrev pub Ordered : List Bucket → Type 0
Ordered [] = Unit {0}
Ordered (b ∷ ht) = ((c : Bucket) → Memᴰ c ht → bucket_le b c ≡ true) × Ordered ht

-- No two keys are alike.
abbrev pub Distinct : List Bucket → Type 0
Distinct [] = Unit {0}
Distinct (b ∷ ht) = ((c : Bucket) → Memᴰ c ht → b.0 ≢ c.0) × Distinct ht

key_le-antisym : (s t : List ℕ) → key_le s t ≡ true → key_le t s ≡ true → s ≡ t
unfolding key_le
key_le-antisym [] [] h k = refl
key_le-antisym [] (b ∷ t) h k = absurd (ground arith)
key_le-antisym (a ∷ s) [] h k = absurd (ground arith)
key_le-antisym (a ∷ s) (b ∷ t) h k =
    let first : a ≡ b = ground arith in
    let rest : (key_le s t ≡ true) × (key_le t s ≡ true) = ground arith in
    let same : s ≡ t = key_le-antisym s t rest.0 rest.1 in cc

pub perm_mem : {l m : List Bucket} {b : Bucket} → Permᴰ l m → Memᴰ b l → Memᴰ b m
perm_mem Permᴰ.nil h = elim h [ ]
perm_mem (Permᴰ.cons e p) (Memᴰ.head f) = Memᴰ.head (f ∙ e)
perm_mem (Permᴰ.cons e p) (Memᴰ.tail h) = Memᴰ.tail (perm_mem p h)
perm_mem (Permᴰ.swap e f) (Memᴰ.head g) = Memᴰ.tail (Memᴰ.head (g ∙ e))
perm_mem (Permᴰ.swap e f) (Memᴰ.tail (Memᴰ.head g)) = Memᴰ.head (g ∙ f)
perm_mem (Permᴰ.swap e f) (Memᴰ.tail (Memᴰ.tail h)) = Memᴰ.tail (Memᴰ.tail h)
perm_mem (Permᴰ.trans p q) h = perm_mem q (perm_mem p h)

-- The keys of a bucket in front and of one behind it stay different.
front_Distinct :
    {l m : List Bucket} {a b : Bucket}
    → a ≡ b
    → ((c : Bucket) → Memᴰ c m → Memᴰ c l)
    → ((c : Bucket) → Memᴰ c l → a.0 ≢ c.0)
    → (c : Bucket) → Memᴰ c m
    → b.0 ≢ c.0
front_Distinct e back h c mem f = h c (back c mem) (ap (λ (x : Bucket). x.0) e ∙ f)

swapped :
    {l : List Bucket} {a b a' b' : Bucket}
    → a ≡ b'
    → b ≡ a'
    → ((c : Bucket) → Memᴰ c (b ∷ l) → a.0 ≢ c.0)
    → ((c : Bucket) → Memᴰ c l → b.0 ≢ c.0)
    → (c : Bucket) → Memᴰ c (b' ∷ l)
    → a'.0 ≢ c.0
swapped {a = a} {b = b} e f h k c (Memᴰ.head g) same = h b (Memᴰ.head refl) (
    ap (λ (x : Bucket). x.0) e
    ∙ sym (ap (λ (x : Bucket). x.0) g)
    ∙ sym same
    ∙ sym (ap (λ (x : Bucket). x.0) f))
swapped {b = b} e f h k c (Memᴰ.tail mem) same = k c mem (ap (λ (x : Bucket). x.0) f ∙ same)

pub Distinct-perm : {l m : List Bucket} → Permᴰ l m → Distinct l → Distinct m
Distinct-perm Permᴰ.nil h = tt
Distinct-perm (Permᴰ.cons e p) h =
    (front_Distinct e (λ c mem. perm_mem (Permᴰ.symm p) mem) h.0, Distinct-perm p h.1)
Distinct-perm (Permᴰ.swap {a = a} {b = b} e f) h =
    (swapped e f h.0 h.1.0, (front_Distinct e (λ c mem. Memᴰ.tail mem) h.0, h.1.1))
Distinct-perm (Permᴰ.trans p q) h = Distinct-perm q (Distinct-perm p h)

-- The first buckets of two ordered tables, each of which is in the other table.
same_front :
    {a b : Bucket} {l m : List Bucket}
    → Ordered (a ∷ l)
    → Ordered (b ∷ m)
    → Distinct (a ∷ l)
    → Memᴰ a (b ∷ m)
    → Memᴰ b (a ∷ l)
    → a ≡ b
same_front ol om dl (Memᴰ.head e) mem = e
same_front ol om dl (Memᴰ.tail mem) (Memᴰ.head e) = sym e
same_front {a} {b} ol om dl (Memᴰ.tail ma) (Memᴰ.tail mb) =
    absurd (dl.0 b mb (key_le-antisym a.0 b.0 (ol.0 b mb) (om.0 a ma)))

-- What is behind the first bucket is behind it in the other table.
behind_front :
    {a b : Bucket} {l m : List Bucket}
    → a ≡ b
    → ((c : Bucket) → Memᴰ c l → a.0 ≢ c.0)
    → ((c : Bucket) → Memᴰ c (a ∷ l) → Memᴰ c (b ∷ m))
    → (c : Bucket) → Memᴰ c l
    → Memᴰ c m
behind_front {a} {b} {l} {m} e d to c mem = by_place (to c (Memᴰ.tail mem))
  where
    by_place : Memᴰ c (b ∷ m) → Memᴰ c m
    by_place (Memᴰ.head f) = absurd (d c mem (ap (λ (x : Bucket). x.0) (e ∙ sym f)))
    by_place (Memᴰ.tail h) = h

-- Two ordered tables with the same buckets are the same.
pub Ordered-unique :
    (l m : List Bucket)
    → Ordered l
    → Ordered m
    → Distinct l
    → Distinct m
    → ((b : Bucket) → Memᴰ b l → Memᴰ b m)
    → ((b : Bucket) → Memᴰ b m → Memᴰ b l)
    → l ≡ m
Ordered-unique [] [] ol om dl dm to from = refl
Ordered-unique [] (b ∷ m) ol om dl dm to from = absurd (elim (from b (Memᴰ.head refl)) [ ])
Ordered-unique (a ∷ l) [] ol om dl dm to from = absurd (elim (to a (Memᴰ.head refl)) [ ])
Ordered-unique (a ∷ l) (b ∷ m) ol om dl dm to from =
    let e : a ≡ b = same_front ol om dl (to a (Memᴰ.head refl)) (from b (Memᴰ.head refl)) in
    let rest : l ≡ m =
      Ordered-unique l m ol.1 om.1 dl.1 dm.1 (behind_front e dl.0 to)
        (behind_front (sym e) dm.0 from) in
    cc
