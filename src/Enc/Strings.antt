-- ===== src/Enc/Strings.antt =====
-- src/encode.c: strings, and the references to strings of a namespace.
pub mod Agreement
use php_ext_cbor.Base.{
  ℕ, ◌+◌, ◌-◌, ◌^◌, Bool, true, false, not, ◌&&◌, Option, none, some, List, [], ◌∷◌, ◌++◌, ◌==◌,
  if◌then◌else◌, length,
}
use php_ext_cbor.Base.Int.{pos}
use php_ext_cbor.Codec.{utf8, internal, has_flag, is_len_string_ref}
use php_ext_cbor.Codec.Flag
use php_ext_cbor.Codec.Tag
use php_ext_cbor.Di.{DiType}
use php_ext_cbor.Di.Encoder.{write_int}
use php_ext_cbor.Utf8.{is_utf8}
use php_ext_cbor.Zv.Table.{same_text}
use php_ext_cbor.Enc.{EncCtx, Srns, Status, good, failed, Follow, ends, value_follows, wrote}
use php_ext_cbor.Enc.Scalars.{enc_tag_bare, enc_long}

-- `init_srns_stack`.
abbrev pub new_srns : Srns
new_srns = record { next_index = 0; byte_table = []; text_table = [] }

unfoldable pub find_index : List ℕ → List (List ℕ × ℕ) → Option ℕ
unfolding same_text
find_index s [] = none
find_index s ((t, i) ∷ table) = if same_text t s then some i else find_index s table

abbrev pub table_of : Srns → Bool → List (List ℕ × ℕ)
table_of srns true = srns.text_table
table_of srns false = srns.byte_table

-- The string gets the next index.
abbrev pub with_string : Srns → Bool → List ℕ → Srns
with_string srns true s = record srns {
  next_index = srns.next_index + 1;
  text_table = (s, srns.next_index) ∷ srns.text_table;
}
with_string srns false s = record srns {
  next_index = srns.next_index + 1;
  byte_table = (s, srns.next_index) ∷ srns.byte_table;
}

-- What is done with the index that was found, if there is one.
unfoldable pub ref_or_add : EncCtx → Srns → List ℕ → Bool → Option ℕ → EncCtx × Follow
unfolding enc_tag_bare enc_long is_len_string_ref
ref_or_add ctx srns value to_text (some i) =
    (record ctx { buf = enc_long (enc_tag_bare ctx.buf Tag.string_ref) (pos i) }, ends good)
ref_or_add ctx srns value to_text none =
    if not (is_len_string_ref (length value) srns.next_index)
    then (ctx, value_follows)
    else if srns.next_index == 2 ^ 32 - 1
    then (ctx, ends (failed internal))
    else (record ctx { srns = some (with_string srns to_text value) }, value_follows)

unfoldable pub enc_string_ref : EncCtx → Srns → List ℕ → Bool → EncCtx × Follow
unfolding ref_or_add find_index
enc_string_ref ctx srns value to_text =
    ref_or_add ctx srns value to_text (find_index value (table_of srns to_text))

unfoldable pub write_string : EncCtx → List ℕ → Bool → EncCtx × Status
unfolding is_utf8 write_int
write_string ctx value to_text =
    if to_text && not (has_flag ctx.args.e_flags Flag.unsafe_text) && not (is_utf8 value)
    then (ctx, failed utf8)
    else wrote ctx
        (write_int ctx.buf (if to_text then DiType.tstr else DiType.bstr) (length value) ++ value)

unfoldable pub after_ref : List ℕ → Bool → EncCtx × Follow → EncCtx × Status
unfolding write_string
after_ref value to_text (ctx, ends s) = (ctx, s)
after_ref value to_text (ctx, value_follows) = write_string ctx value to_text

-- `enc_string_len` behind the test of `ctx->srns`.
unfoldable pub enc_string_in : EncCtx → Option Srns → List ℕ → Bool → EncCtx × Status
unfolding after_ref enc_string_ref write_string
enc_string_in ctx none value to_text = write_string ctx value to_text
enc_string_in ctx (some srns) value to_text =
    after_ref value to_text (enc_string_ref ctx srns value to_text)

-- `enc_string_len`, and `enc_string` on a string's bytes.
unfoldable pub enc_string : EncCtx → List ℕ → Bool → EncCtx × Status
unfolding enc_string_in
enc_string ctx value to_text = enc_string_in ctx ctx.srns value to_text
