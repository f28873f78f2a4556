-- ===== src/Tests/Witnesses.antt =====
-- The theorems at concrete arguments where their hypotheses hold.
use php_ext_cbor.Base.{
  none, get_elem?, ℕ, suc, ◌^◌, ◌≤◌, ◌<◌, ◌≡◌, ◌↔◌, refl, true, some, List, [], ◌∷◌, ◌++◌, leb,
  if◌then◌else◌, length, arith,
}
use php_ext_cbor.Base.Int.{pos}
use php_ext_cbor.Codec.Tag
use php_ext_cbor.Codec.{is_len_string_ref}
use php_ext_cbor.Codec.StringRef.{is_len_string_ref-reference}
use php_ext_cbor.Decimal.{int_to_str}
use php_ext_cbor.Decimal.Canonical.{IsSigned, int_to_str-IsSigned}
use php_ext_cbor.Di.{Decoded, unset, i32}
use php_ext_cbor.Di.Encoder.{int_head}
use php_ext_cbor.Di.Decoder.{read_int}
use php_ext_cbor.Di.RoundTrip.{head_len}
use php_ext_cbor.Di.Heads.{read_int_bounds, read_int-append, read_int_resumes, int_value}
use php_ext_cbor.Decode.Tokens.{Token, write_token, event_of}
use php_ext_cbor.Decode.Written.{dec_item-write_token, Calls}
use php_ext_cbor.Decode.Reads.{Reads, dec_item-Reads}
use php_ext_cbor.Decode.Item.{dec_item}
use php_ext_cbor.Decode.Process.{done, decode, Decoding}
use php_ext_cbor.Utf8.{is_utf8, next_utf8}
use php_ext_cbor.Utf8.Encoding.{encode_char}
use php_ext_cbor.Utf8.Next.{next_utf8-encode_char}
use php_ext_cbor.Utf8.Exact.{is_utf8-exact, IsEncoded}
use php_ext_cbor.Zv.{
  Key, Object, Zval, long, string, null, object, boolean, array, Entries, end, entry, index, name,
  std_class, map, tag_shareable, SiValue, Thi, ZvCtx, ZvStackItem,
}
use php_ext_cbor.Zv.Table.{lookup, num_elements, exists_key, update, same_key, object_at}
use php_ext_cbor.Zv.Tags.{set_u, str_ref_ns_data, str_ref_exit}
use php_ext_cbor.Zv.Share.{
  share_scalar, shared_ref_exit, shareable_child, shareable_exit, value_name,
}
use php_ext_cbor.Zv.Append.{zv_append, write_entry, array_key_of}
use php_ext_cbor.Zv.Proc.{zv_methods}
use php_ext_cbor.Zv.Frame.{Shrinks, zv_append-Shrinks}
use php_ext_cbor.Zv.Depth.{Within, dec_item-Within, zv_decode-done}
use php_ext_cbor.Zv.Strings.{
  at_once, string_noted, reference_read, str_ref_exit-str_ref_ns_data, str_ref_exit-object,
}
use php_ext_cbor.Zv.Sharing.{shared_ref_exit-share_scalar, shared_map-holds_itself}
use php_ext_cbor.Zv.Lookup.{lookup-update, write_entry-fresh}
use php_ext_cbor.Decode.{SiType}
use php_ext_cbor.Zv.Trees.{Tree, nil, cons, count, write_tree, value_of}
use php_ext_cbor.Zv.RoundTrip.{decode-write_tree}
use php_ext_cbor.Tests.Fixtures.{plain_engine, empty_state, default_args, fresh_ctx}

dec_item-write_token_example :
    Calls
      (zv_methods plain_engine)
      (7 ∷ [])
      (fresh_ctx [])
      (length (write_token [] (Token.text (0x61 ∷ 0x62 ∷ []))))
      (event_of (Token.text (0x61 ∷ 0x62 ∷ [])))
      (dec_item
        (zv_methods plain_engine)
        (write_token [] (Token.text (0x61 ∷ 0x62 ∷ [])) ++ 7 ∷ [])
        (fresh_ctx []))
dec_item-write_token_example =
    dec_item-write_token (zv_methods plain_engine) (7 ∷ []) (fresh_ctx [])
      (Token.text (0x61 ∷ 0x62 ∷ [])) (omega arith)

zv_decode-done_example :
    (d : Decoding (zv_methods plain_engine)) × (decode
        (zv_methods plain_engine)
        empty_state
        default_args
        (0x82 ∷ 1 ∷ 2 ∷ [])
      ≡ done d)
zv_decode-done_example = zv_decode-done plain_engine empty_state default_args (0x82 ∷ 1 ∷ 2 ∷ [])

is_utf8-exact_example : (is_utf8 (0xc3 ∷ 0xa9 ∷ []) ≡ true) ↔ IsEncoded (0xc3 ∷ 0xa9 ∷ [])
is_utf8-exact_example = is_utf8-exact (0xc3 ∷ 0xa9 ∷ []) (omega arith, (omega arith, record {}))

start-Within :
    (bytes : List ℕ)
    → Within default_args
        (record { length = length bytes; offset = 0; limit = length bytes; base = 0; ptr = bytes })
        (fresh_ctx bytes)
start-Within bytes = record { mem = refl; args = refl; counted = refl; bounded = omega arith }

dec_item-Within_example :
    Within default_args
      (record { length = 2; offset = 0; limit = 2; base = 0; ptr = 0x81 ∷ 1 ∷ [] })
      (dec_item (zv_methods plain_engine) (0x81 ∷ 1 ∷ []) (fresh_ctx (0x81 ∷ 1 ∷ []))).2
dec_item-Within_example =
    dec_item-Within default_args
      (record { length = 2; offset = 0; limit = 2; base = 0; ptr = 0x81 ∷ 1 ∷ [] }) (omega arith)
      plain_engine (0x81 ∷ 1 ∷ []) (fresh_ctx (0x81 ∷ 1 ∷ [])) (start-Within (0x81 ∷ 1 ∷ []))

dec_item-Reads_example :
    Reads
      (zv_methods plain_engine)
      (0x81 ∷ 1 ∷ [])
      (fresh_ctx [])
      (omega arith)
      (dec_item (zv_methods plain_engine) (0x81 ∷ 1 ∷ []) (fresh_ctx []))
dec_item-Reads_example =
    dec_item-Reads (zv_methods plain_engine) (0x81 ∷ 1 ∷ []) (fresh_ctx []) (omega arith)

-- A namespace with an empty table.
abbrev in_namespace : ZvCtx
in_namespace = record (fresh_ctx []) { u = record empty_state { srns = [] ∷ [] } }

-- A second string, and a reference to the first, behind a first one.
abbrev later : Zval → ZvCtx → ZvCtx
later v ctx =
    (str_ref_exit (long (pos 0))
      (str_ref_ns_data (string (0x64 ∷ 0x65 ∷ 0x66 ∷ [])) (str_ref_ns_data v ctx))).1

str_ref_exit-str_ref_ns_data_example :
    str_ref_exit (long (pos 0)) (later (string (0x61 ∷ 0x62 ∷ 0x63 ∷ [])) in_namespace)
    ≡ (string (0x61 ∷ 0x62 ∷ 0x63 ∷ []), later (string (0x61 ∷ 0x62 ∷ 0x63 ∷ [])) in_namespace)
unfolding is_len_string_ref
str_ref_exit-str_ref_ns_data_example =
    str_ref_exit-str_ref_ns_data in_namespace [] [] refl (0x61 ∷ 0x62 ∷ 0x63 ∷ [])
      (later (string (0x61 ∷ 0x62 ∷ 0x63 ∷ [])) in_namespace) refl
      (reference_read (long (pos 0)) (string_noted (string (0x64 ∷ 0x65 ∷ 0x66 ∷ [])) at_once))

-- A namespace with a byte string's object at hand.
abbrev with_object : ZvCtx
with_object = record (fresh_ctx []) {
  u = record empty_state { srns = [] ∷ []; objects = Object.byte (1 ∷ 2 ∷ 3 ∷ []) ∷ [] };
}

str_ref_exit-object_example :
    str_ref_exit (long (pos 0)) (str_ref_ns_data (object 0) with_object) ≡ (
      object (length (str_ref_ns_data (object 0) with_object).u.objects),
      set_u
          (record ((str_ref_ns_data (object 0) with_object).u) {
            objects =
                (str_ref_ns_data (object 0) with_object).u.objects
                ++ Object.byte (1 ∷ 2 ∷ 3 ∷ []) ∷ [];
          })
          (str_ref_ns_data (object 0) with_object),
    )
unfolding is_len_string_ref object_at
str_ref_exit-object_example =
    str_ref_exit-object with_object [] [] refl 0 3 (Object.byte (1 ∷ 2 ∷ 3 ∷ []))
      (str_ref_ns_data (object 0) with_object) refl refl refl at_once

-- `shared_ref` is 'shareable', and one place of the table is taken.
abbrev sharing : ZvCtx
sharing = record (fresh_ctx []) {
  args = record default_args { shared_ref = 2 };
  u = record empty_state { refs = null ∷ []; objects = std_class end ∷ [] };
}

shared_ref_exit-share_scalar_example :
    shared_ref_exit (long (pos 0)) (share_scalar (boolean true) 0 sharing).1
    ≡ share_scalar (boolean true) 0 sharing
unfolding share_scalar
shared_ref_exit-share_scalar_example =
    shared_ref_exit-share_scalar (boolean true) 0 sharing (omega arith) refl refl

write_entry-fresh_example :
    (es' : Entries) × (array (entry (name (0x61 ∷ [])) null end) ≡ array es')
    × (num_elements es' ≡ suc (num_elements end))
    × ((j : Key)
        → lookup j es' ≡ (
            if same_key (array_key_of plain_engine (string (0x61 ∷ []))) j
            then some null
            else lookup j end))
unfolding write_entry update exists_key
write_entry-fresh_example =
    write_entry-fresh plain_engine end (string (0x61 ∷ [])) null
      (record (fresh_ctx []) { args = record default_args { flags = 0x80 } })
      (array (entry (name (0x61 ∷ [])) null end)) empty_state refl refl

lookup-update_example :
    lookup (index 1) (update (index 2) null end)
    ≡ (if same_key (index 2) (index 1) then some null else lookup (index 1) end)
lookup-update_example = lookup-update (index 1) (index 2) null end

next_utf8-encode_char_example : next_utf8 (encode_char 0xe9 ++ 7 ∷ []) ≡ (0xe9, 7 ∷ [])
next_utf8-encode_char_example = next_utf8-encode_char 0xe9 (7 ∷ []) (omega arith)

-- What `out` is before a read.
abbrev fresh_out : Decoded
fresh_out = record { read_len = 1; req_len = 0; v = unset }

read_int_bounds_example :
    (2 ≤ length {A = ℕ} (0x18 ∷ 5 ∷ 9 ∷ []))
    × (int_value (i32 5) < 2 ^ 64)
    × (head_len (int_value (i32 5)) ≤ 2)
unfolding read_int
read_int_bounds_example =
    read_int_bounds (0x18 ∷ 5 ∷ 9 ∷ []) fresh_out (record { read_len = 2; req_len = 0; v = i32 5 })
      (omega arith, (omega arith, (omega arith, record {}))) refl

read_int-append_example :
    read_int ((0x18 ∷ 5 ∷ []) ++ 9 ∷ []) fresh_out
    ≡ (true, record { read_len = 2; req_len = 0; v = i32 5 })
unfolding read_int
read_int-append_example =
    read_int-append (0x18 ∷ 5 ∷ []) (9 ∷ []) fresh_out
      (record { read_len = 2; req_len = 0; v = i32 5 }) refl

read_int_resumes_example :
    ((read_int ((0x19 ∷ 1 ∷ []) ++ 0 ∷ []) fresh_out).0 ≡ true)
    × ((read_int ((0x19 ∷ 1 ∷ []) ++ 0 ∷ []) fresh_out).1.read_len ≡ 3)
unfolding read_int
read_int_resumes_example =
    read_int_resumes (0x19 ∷ 1 ∷ []) (0 ∷ []) fresh_out
      (record { read_len = 0; req_len = 3; v = unset }) (omega arith) refl
      (λ e. absurd (omega (arith, e))) (omega arith)

is_len_string_ref-reference_example :
    is_len_string_ref 3 23 ≡ leb (length (int_head 6 Tag.string_ref ++ int_head 0 23)) 3
is_len_string_ref-reference_example = is_len_string_ref-reference 3 23

int_to_str-IsSigned_example : IsSigned 255 true (int_to_str 255 true)
int_to_str-IsSigned_example = int_to_str-IsSigned 255 true (omega arith)

zv_append-Shrinks_example : Shrinks (fresh_ctx []) (zv_append plain_engine null (fresh_ctx [])).1
zv_append-Shrinks_example = zv_append-Shrinks plain_engine null (fresh_ctx [])

-- The items of a tag 28 and of a map below it.
abbrev item_of : SiType → ℕ → SiValue → ZvStackItem
item_of t n v = record {
  si_type = t;
  count = n;
  ext = record { thi_data = Thi.none; thi_child0 = Thi.none; thi_child1 = Thi.none; v = v };
}

shared_map-holds_itself_example :
    let (ctx', self') =
      shareable_child sharing
        (item_of SiType.map 1 (map (object 0) Zval.undef 0))
        (item_of SiType.tag_handled 1 (tag_shareable 28 Thi.shareable null 0)) in
    let (v, ctx'') = shareable_exit (object 0) self'.ext.v ctx' in
    (v ≡ object 0)
    × (get_elem? ctx''.u.refs 0 ≡ some (object 0))
    × (shared_ref_exit (long (pos 0)) ctx'' ≡ (object 0, ctx''))
    × (object_at 0 ctx''.u ≡ some (std_class (update (name value_name) (object 0) end)))
unfolding object_at
shared_map-holds_itself_example =
    shared_map-holds_itself sharing (item_of SiType.map 1 (map (object 0) Zval.undef 0))
      (item_of SiType.tag_handled 1 (tag_shareable 28 Thi.shareable null 0)) Zval.undef 0 0 0 end
      refl (omega arith) refl refl refl

-- [1, [h'61']]
abbrev sample : Tree
sample = Tree.array (cons (Tree.uint 1) (cons (Tree.array (cons (Tree.bytes (0x61 ∷ [])) nil)) nil))

decode-write_tree_example :
    decode (zv_methods plain_engine) empty_state default_args (write_tree sample)
    ≡ done (record { error = none; error_offset = 0; value = some (value_of sample) })
unfolding count
decode-write_tree_example =
    decode-write_tree plain_engine empty_state default_args sample refl
      (
        omega arith,
        omega arith,
        omega arith,
        (
          omega arith,
          ((omega arith, omega arith, omega arith, (omega arith, record {})), record {}),
        ),
      )
      (omega arith) refl refl
