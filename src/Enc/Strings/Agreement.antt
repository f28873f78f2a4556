-- ===== src/Enc/Strings/Agreement.antt =====
-- src/encode.c, `enc_string_ref`, and src/decode_zv.h, the tags 256 and 25: both sides number the
-- strings of a namespace alike.
use php_ext_cbor.Base.{
  ℕ, zero, suc, ◌-◌, ◌^◌, ◌≡◌, inl, inr, refl, ap, sym, ◌∙◌, Bool, true, false, Option, none, some,
  List, [], ◌∷◌, ◌++◌, ◌==◌, length, length-append, get_elem?, Bool-cases, arith,
}
use php_ext_cbor.Base.Int.{pos}
use php_ext_cbor.Codec.{internal, is_len_string_ref}
use php_ext_cbor.Codec.Tag
use php_ext_cbor.Zv.{Zval, long, string, ZvCtx}
use php_ext_cbor.Zv.Lookup.{same_text_sound}
use php_ext_cbor.Zv.Strings.{get_elem?-last, noted}
use php_ext_cbor.Zv.Table.{same_text}
use php_ext_cbor.Zv.Tags.{str_ref_ns_data, str_ref_exit, copy_string, top_table}
use php_ext_cbor.Enc.{EncCtx, Srns, good, failed, Follow, ends, value_follows}
use php_ext_cbor.Enc.Scalars.{enc_tag_bare, enc_long}
use php_ext_cbor.Enc.Strings.{
  new_srns, find_index, table_of, with_string, ref_or_add, enc_string_ref,
}

-- Every index of the encoder's tables is the place of the string in the decoder's table.
abbrev pub Indexed : List (List ℕ × ℕ) → List Zval → Type 0
Indexed table t =
    (s : List ℕ) (i : ℕ) → find_index s table ≡ some i → get_elem? t i ≡ some (string s)

-- A namespace of the encoder and the table of a decoder that gives PHP strings.
pub record Agrees (srns : Srns) (t : List Zval) : Type 0 where
  pub count : srns.next_index ≡ length t
  pub bytes : Indexed srns.byte_table t
  pub texts : Indexed srns.text_table t

empty-Indexed : Indexed [] []
unfolding find_index
empty-Indexed s i f = absurd (cc f)

-- A new namespace on both sides.
pub new_srns-Agrees : Agrees new_srns []
new_srns-Agrees = record { count = refl; bytes = empty-Indexed; texts = empty-Indexed }

get_elem?-longer :
    (t : List Zval) (v : Zval) (i : ℕ) {x : Zval}
    → get_elem? t i ≡ some x
    → get_elem? (t ++ v ∷ []) i ≡ some x
get_elem?-longer [] v i h = absurd (cc h)
get_elem?-longer (y ∷ t) v zero h = h
get_elem?-longer (y ∷ t) v (suc i) h = get_elem?-longer t v i h

Indexed-longer :
    (table : List (List ℕ × ℕ)) (t : List Zval) (v : Zval)
    → Indexed table t
    → Indexed table (t ++ v ∷ [])
Indexed-longer table t v h s i f = get_elem?-longer t v i (h s i f)

Indexed-add :
    (table : List (List ℕ × ℕ)) (t : List Zval) (s : List ℕ)
    → Indexed table t
    → Indexed ((s, length t) ∷ table) (t ++ string s ∷ [])
unfolding find_index
Indexed-add table t s h r i f = elim (Bool-cases (same_text s r)) [
  | inl e ↦
      let found : Path (Option ℕ) (some (length t)) (some i) = rw e at f in
      let here : length t ≡ i = cc in
      let whole : s ≡ r = same_text_sound s r e in
      rw (sym here, sym whole) (get_elem?-last t (string s))
  | inr e ↦ get_elem?-longer t (string s) i (h r i (rw e at f))
]

-- Both sides have numbered the string.
Agrees-add :
    (srns : Srns) (t : List Zval) (s : List ℕ) (to_text : Bool)
    → Agrees srns t
    → Agrees (with_string srns to_text s) (t ++ string s ∷ [])
Agrees-add srns t s true h = record {
  count = omega (arith, h.count, length-append t (string s ∷ []));
  bytes = Indexed-longer srns.byte_table t (string s) h.bytes;
  texts = rw (sym h.count) at (Indexed-add srns.text_table t s h.texts);
}
Agrees-add srns t s false h = record {
  count = omega (arith, h.count, length-append t (string s ∷ []));
  bytes = rw (sym h.count) at (Indexed-add srns.byte_table t s h.bytes);
  texts = Indexed-longer srns.text_table t (string s) h.texts;
}

known_index :
    (srns : Srns) (t : List Zval) (s : List ℕ) (to_text : Bool)
    → Agrees srns t
    → (i : ℕ) → find_index s (table_of srns to_text) ≡ some i
    → get_elem? t i ≡ some (string s)
known_index srns t s true h i f = h.texts s i f
known_index srns t s false h i f = h.bytes s i f

-- What the two sides do with a string: a reference that the decoder turns into the string, a string
-- after which they agree again, or no index that is left.
pub data Numbers (ctx : EncCtx) (srns : Srns) (s : List ℕ) (dec : ZvCtx) (ts : List (List Zval))
    : EncCtx × Follow → Type 0 where
  referred :
      (i : ℕ)
      → str_ref_exit (long (pos i)) dec ≡ (string s, dec)
      → Numbers ctx srns s dec ts
          (record ctx { buf = enc_long (enc_tag_bare ctx.buf Tag.string_ref) (pos i) }, ends good)
  written :
      (c : EncCtx) (after : Srns) (t : List Zval)
      → c.buf ≡ ctx.buf
      → c.srns ≡ some after
      → Agrees after t
      → (str_ref_ns_data (string s) dec).u.srns ≡ t ∷ ts
      → Numbers ctx srns s dec ts (c, value_follows)
  no_index : srns.next_index ≡ 2 ^ 32 - 1 → Numbers ctx srns s dec ts (ctx, ends (failed internal))

module _ (ctx : EncCtx) (srns : Srns) (s : List ℕ) (to_text : Bool) (dec : ZvCtx) (t : List Zval)
    (ts : List (List Zval)) where
  found :
      dec.u.srns ≡ t ∷ ts
      → (i : ℕ) → get_elem? t i ≡ some (string s)
      → str_ref_exit (long (pos i)) dec ≡ (string s, dec)
  unfolding str_ref_exit copy_string
  found e i f =
      let there : get_elem? (top_table dec.u.srns) i ≡ some (string s) =
        ap (λ (x : List (List Zval)). get_elem? (top_table x) i) e ∙ f in
      rw (str_ref_exit, there) refl

  not_counted :
      dec.u.srns ≡ t ∷ ts
      → is_len_string_ref (length s) (length t) ≡ false
      → (str_ref_ns_data (string s) dec).u.srns ≡ t ∷ ts
  unfolding str_ref_ns_data
  not_counted e y = rw (e, y) refl

  by_index :
      Agrees srns t
      → dec.u.srns ≡ t ∷ ts
      → ctx.srns ≡ some srns
      → (o : Option ℕ) → ((i : ℕ) → o ≡ some i → get_elem? t i ≡ some (string s))
      → Numbers ctx srns s dec ts (ref_or_add ctx srns s to_text o)
  unfolding ref_or_add
  by_index h e here (some i) known = referred i (found e i (known i refl))
  by_index h e here none known = elim (Bool-cases (is_len_string_ref (length s) srns.next_index)) [
    | inl y ↦
        let y' : is_len_string_ref (length s) (length t) ≡ true = rw h.count at y in
        elim (Bool-cases (srns.next_index == 2 ^ 32 - 1)) [
          | inl full ↦ rw (y, full) (no_index (ground (arith, full)))
          | inr room ↦
              rw (y, room)
                (written (record ctx { srns = some (with_string srns to_text s) })
                  (with_string srns to_text s) (t ++ string s ∷ []) refl refl
                  (Agrees-add srns t s to_text h)
                  (ap (λ (d : ZvCtx). d.u.srns) (noted s dec t ts e y')))
        ]
    | inr y ↦ rw y (written ctx srns t refl here h (not_counted e (rw h.count at y)))
  ]

  -- If the tables of the encoder and of the decoder agree on a namespace, then an encoder's string is
  -- either a reference that the decoder turns into that string, or a string after which both agree
  -- again, or the namespace has no index left.
  pub enc_string_ref-Numbers :
      Agrees srns t
      → dec.u.srns ≡ t ∷ ts
      → ctx.srns ≡ some srns
      → Numbers ctx srns s dec ts (enc_string_ref ctx srns s to_text)
  unfolding enc_string_ref
  enc_string_ref-Numbers h e here =
      by_index h e here (find_index s (table_of srns to_text)) (known_index srns t s to_text h)
