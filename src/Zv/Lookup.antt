-- ===== src/Zv/Lookup.antt =====
-- The table operations that src/decode_zv.h calls, against a lookup: what a write changes.
use php_ext_cbor.Base.{
  ℕ, suc, ◌≡◌, inl, inr, refl, ap, true, none, some, List, [], ◌∷◌, if◌then◌else◌, arith,
  Bool-cases,
}
use php_ext_cbor.Codec.{has_flag}
use php_ext_cbor.Codec.Flag
use php_ext_cbor.Zv.{Engine, Key, index, name, Zval, array, Entries, end, entry, ZvState, ZvCtx}
use php_ext_cbor.Zv.Table.{same_text, same_key, num_elements, exists_key, update, lookup}
use php_ext_cbor.Zv.Append.{write_entry, array_key_of}

same_text_refl : (s : List ℕ) → same_text s s ≡ true
unfolding same_text
same_text_refl [] = refl
same_text_refl (c ∷ cs) = ground (arith, same_text_refl cs)

pub same_text_sound : (s t : List ℕ) → same_text s t ≡ true → s ≡ t
unfolding same_text
same_text_sound [] [] e = refl
same_text_sound [] (b ∷ t) e = absurd (cc e)
same_text_sound (a ∷ s) [] e = absurd (cc e)
same_text_sound (a ∷ s) (b ∷ t) e = ground (arith, same_text_sound s t)

pub same_key_refl : (k : Key) → same_key k k ≡ true
unfolding same_key
same_key_refl (index i) = ground arith
same_key_refl (name s) = same_text_refl s

pub same_key_sound : (j k : Key) → same_key j k ≡ true → j ≡ k
unfolding same_key
same_key_sound (index i) (index j) e = ap index (ground arith)
same_key_sound (index i) (name s) e = absurd (cc e)
same_key_sound (name s) (index i) e = absurd (cc e)
same_key_sound (name s) (name t) e = ap name (same_text_sound s t e)

-- The key that is written has the new value, and every other key has the value that it had.
pub lookup-update :
    (j k : Key) (v : Zval) (es : Entries)
    → lookup j (update k v es) ≡ (if same_key k j then some v else lookup j es)
unfolding lookup update
lookup-update j k v end = refl
lookup-update j k v (entry i w es) = elim (Bool-cases (same_key i k)) [
  | inl e ↦ rw (same_key_sound i k e, same_key_refl k) (ground arith)
  | inr e ↦ rw e (
      ground (
        arith,
        lookup-update j k v es,
        same_key_sound i j,
        same_key_sound k j,
        same_key_refl i,
        same_key_refl k,
      ))
]

-- The count of the entries grows by one exactly where the key is new.
pub num_elements-update :
    (k : Key) (v : Zval) (es : Entries)
    → num_elements (update k v es)
      ≡ (if exists_key k es then num_elements es else suc (num_elements es))
unfolding num_elements update exists_key
num_elements-update k v end = refl
num_elements-update k v (entry j w es) = ground (arith, num_elements-update k v es)

module _ (engine : Engine) where
  -- With CBOR_MAP_NO_DUP_KEY, an entry that is written to an array without an error has a new key: the
  -- array has one entry more, which is the value under that key, and every other key keeps its value.
  pub write_entry-fresh :
      (es : Entries) (key v : Zval) (ctx : ZvCtx) (dest : Zval) (s : ZvState)
      → has_flag ctx.args.flags Flag.map_no_dup_key ≡ true
      → write_entry engine (array es) key v ctx ≡ (none, dest, s)
      → (es' : Entries) × (dest ≡ array es')
        × (num_elements es' ≡ suc (num_elements es))
        × ((j : Key)
            → lookup j es' ≡ (if same_key (array_key_of engine key) j then some v else lookup j es))
  unfolding write_entry
  write_entry-fresh es key v ctx dest s f e =
      elim (Bool-cases (exists_key (array_key_of engine key) es)) [
        | inl there ↦ absurd (ground (arith, f, there, e))
        | inr new ↦
            let k = array_key_of engine key in
            (
              update k v es,
              ground (arith, new, e),
              rw (num_elements-update k v es, new) refl,
              λ j. lookup-update j k v es,
            )
      ]
