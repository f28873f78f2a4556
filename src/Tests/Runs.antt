-- ===== src/Tests/Runs.antt =====
-- The decoder to PHP values on concrete inputs.
use php_ext_cbor.Base.{◌≡◌, refl, some, none, [], ◌∷◌}
use php_ext_cbor.Base.Int.{pos}
use php_ext_cbor.Codec.{truncated_data, extraneous_data}
use php_ext_cbor.Decode.Process.{done, decode, round}
use php_ext_cbor.Zv.{index, end, entry, long, array}
use php_ext_cbor.Decode.Item.{dec_item, dec_type}
use php_ext_cbor.Di.Decoder.{get_type, read_list, read_int}
use php_ext_cbor.Zv.Append.{zv_append}
use php_ext_cbor.Zv.Table.{push}
use php_ext_cbor.Zv.Proc.{zv_methods}
use php_ext_cbor.Tests.Fixtures.{plain_engine, empty_state, default_args}

-- [[2]]
nested_array :
    decode (zv_methods plain_engine) empty_state default_args (0x81 ∷ 0x81 ∷ 2 ∷ [])
    ≡ done (record {
      error = none;
      error_offset = 0;
      value = some (array (entry (index 0) (array (entry (index 0) (long (pos 2)) end)) end));
    })
unfolding decode zv_methods round dec_item dec_type get_type read_list read_int zv_append push
nested_array = refl

-- An array that is cut off, and one with a byte behind it.
cut_array :
    decode (zv_methods plain_engine) empty_state default_args (0x82 ∷ 1 ∷ [])
    ≡ done (record { error = some truncated_data; error_offset = 1; value = none })
unfolding decode zv_methods round dec_item dec_type get_type read_list read_int zv_append push
cut_array = refl

trailing_byte :
    decode (zv_methods plain_engine) empty_state default_args (0x81 ∷ 1 ∷ 2 ∷ [])
    ≡ done (record { error = some extraneous_data; error_offset = 2; value = none })
unfolding decode zv_methods round dec_item dec_type get_type read_list read_int zv_append push
trailing_byte = refl
