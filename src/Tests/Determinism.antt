-- ===== src/Tests/Determinism.antt =====
-- The order of the entries of an object, at two orders of two entries, and the numbers of strings.
use mathlib.Core.List.{Memᴰ, Permᴰ}
use mathlib.Core.List.Permᴰ
use php_ext_cbor.Base.{
  ℕ, ◌≡◌, ◌≢◌, ◌∙◌, refl, ap, Bool, true, false, none, some, List, [], ◌∷◌, get_or, if◌then◌else◌,
  arith,
}
use php_ext_cbor.Base.Int.{pos}
use php_ext_cbor.Options.Encoding.{EncodeArgs}
use php_ext_cbor.Zv.{long, Entries, end, entry, name}
use php_ext_cbor.Enc.{EncCtx, EncEngine, Bucket}
use php_ext_cbor.Enc.Hash.{enc_hash, key_le, enc_key}
use php_ext_cbor.Enc.Hash.Order.{no_entry, one_more, enc_hash-order}
use php_ext_cbor.Enc.Encode.{enc_zval}
use php_ext_cbor.Zv.{ZvCtx}
use php_ext_cbor.Enc.Strings.{new_srns, enc_string_ref}
use php_ext_cbor.Enc.Strings.Agreement.{Numbers, new_srns-Agrees, enc_string_ref-Numbers}
use php_ext_cbor.Tests.Fixtures.{empty_state, fresh_ctx}
use php_ext_cbor.Tests.Encoding.{encoder, looped, plain_args}

-- A stable sort.
abbrev insert : (Bucket → Bucket → Bool) → Bucket → List Bucket → List Bucket
insert le b [] = b ∷ []
insert le b (c ∷ ht) = let rest = insert le b ht in if le b c then b ∷ c ∷ ht else c ∷ rest

abbrev insertion_sort : (Bucket → Bucket → Bool) → List Bucket → List Bucket
insertion_sort le [] = []
insertion_sort le (b ∷ ht) = insert le b (insertion_sort le ht)

abbrev sorting : EncEngine
sorting = record encoder { hash_sort = insertion_sort }

-- Flags CBOR_CDE | CBOR_BYTE | CBOR_KEY_BYTE.
abbrev cde_args : EncodeArgs
cde_args = record plain_args { e_flags = 0x2009 }

abbrev a_first : Entries
a_first = entry (name (0x61 ∷ [])) (long (pos 1)) (entry (name (0x62 ∷ [])) (long (pos 2)) end)

abbrev b_first : Entries
b_first = entry (name (0x62 ∷ [])) (long (pos 2)) (entry (name (0x61 ∷ [])) (long (pos 1)) end)

abbrev bucket_a : Bucket
bucket_a = (0x41 ∷ 0x61 ∷ [], long (pos 1))

abbrev bucket_b : Bucket
bucket_b = (0x41 ∷ 0x62 ∷ [], long (pos 2))

abbrev cde_ctx : EncCtx
cde_ctx = record {
  args = cde_args;
  cur_depth = 1;
  in_enc_params = 0;
  buf = [];
  srns = none;
  refs = [];
  protected = [];
}

different : (b : Bucket) → Memᴰ b (bucket_b ∷ []) → bucket_a.0 ≢ b.0
different b (Memᴰ.head e) f =
    absurd (omega (arith, ap (λ (s : List ℕ). get_or s 1 0) (f ∙ ap (λ (x : Bucket). x.0) e)))
different b (Memᴰ.tail h) f = elim h [ ]

in_order : (b : Bucket) → Memᴰ b (bucket_b ∷ []) → key_le bucket_a.0 b.0 ≡ true
unfolding key_le
in_order b (Memᴰ.head e) = rw e refl
in_order b (Memᴰ.tail h) = elim h [ ]

none_behind : (A : Bucket → Type 0) (b : Bucket) → Memᴰ b [] → A b
none_behind A b h = elim h [ ]

swapped_buckets : Permᴰ (bucket_a ∷ bucket_b ∷ []) (bucket_b ∷ bucket_a ∷ [])
swapped_buckets = Permᴰ.swap refl refl

enc_hash-order_example :
    enc_hash (enc_zval sorting looped 9) sorting cde_ctx none false a_first
    ≡ enc_hash (enc_zval sorting looped 9) sorting cde_ctx none false b_first
unfolding enc_key key_le
enc_hash-order_example =
    enc_hash-order (enc_zval sorting looped 9) sorting cde_ctx none a_first b_first
      (bucket_a ∷ bucket_b ∷ []) (bucket_b ∷ bucket_a ∷ []) refl (Permᴰ.swap refl refl)
      (one_more refl (one_more refl no_entry)) (one_more refl (one_more refl no_entry))
      (different, (none_behind _, tt))
      (record {
        ordered = (in_order, (none_behind _, tt));
        same = Permᴰ.refl (bucket_a ∷ bucket_b ∷ []);
      })
      (record { ordered = (in_order, (none_behind _, tt)); same = swapped_buckets })

-- A context in a new namespace.
abbrev ns_ctx : EncCtx
ns_ctx = record cde_ctx { args = plain_args; srns = some new_srns }

abbrev ns_dec : ZvCtx
ns_dec = record (fresh_ctx []) { u = record empty_state { srns = [] ∷ [] } }

enc_string_ref-Numbers_example :
    Numbers ns_ctx new_srns
      (0x61 ∷ 0x62 ∷ 0x63 ∷ [])
      ns_dec
      []
      (enc_string_ref ns_ctx new_srns (0x61 ∷ 0x62 ∷ 0x63 ∷ []) false)
enc_string_ref-Numbers_example =
    enc_string_ref-Numbers ns_ctx new_srns (0x61 ∷ 0x62 ∷ 0x63 ∷ []) false ns_dec [] []
      new_srns-Agrees refl refl
