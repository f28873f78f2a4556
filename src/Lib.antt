-- ===== src/Lib.antt =====
-- php-ext-cbor, an extension of PHP that encodes and decodes CBOR (RFC 8949).
--
-- The program's parts. `src/di_encoder.c` writes the heads of data items and `src/di_decoder.c` reads
-- them. `src/utf8.c` checks text. `src/decode.c` keeps a context with a stack of open containers and
-- loops over the items of a fragment of memory; `src/decode_base.h` reads one item and calls a method
-- for it. The methods are a table that each kind of decoder fills; `src/decode_zv.h` is the one that
-- builds PHP values. `src/encode.c` goes through a PHP value and writes it to a buffer with the
-- functions of `src/di_encoder.c`. `src/options.c` reads the options of a call into the
-- arguments. `src/codec.h`, `src/flags.h` and `src/tags.h` hold the codes that all share.
--
-- Which file models which part:
--   Base       lists, Boolean tests, masks and integers that the other files share
--   Codec      error codes, flags, tags, arguments, fragments; `cbor_is_len_string_ref`
--   Di         the types of items; Di/Encoder is src/di_encoder.c, Di/Decoder is src/di_decoder.c
--   Utf8       src/utf8.c; Utf8/Encoding is the encoding written without the automaton
--   Decimal    `cbor_int_to_str` of src/decode.c, with the C library's `%u`
--   Decode     the context, the stack and the table of methods; Decode/Item is `dec_item` of
--              src/decode_base.h, Decode/Process is `decode_nested`, `cbor_decode_process` and
--              `cbor_decode`; Decode/Tokens describes items as the encoder writes them
--   Enc        the values and the state of src/encode.c; Enc/Scalars, Enc/Strings, Enc/Keys, Enc/Hash,
--              Enc/Shared, Enc/Traverse, Enc/Params, Enc/BigDecimal and Enc/DecimalObject are its
--              functions by what they write, Enc/Encode is `enc_zval` and `cbor_encode`; Enc/Hash/Order
--              is about the order of entries, Enc/Strings/Agreement about the numbers of strings in
--              the encoder and in the decoder, Enc/RoundTrip goes through both, and Enc/Balance
--              follows the state through every function
--   Floats     `test_fp32_size` and `test_fp64_size` of src/type_float_cast.h; Floats/Half is
--              src/type_float_cast_16.h
--   Options    src/options.c; Options/Encoding is the encoder's part
--   Zv         the values and the state of src/decode_zv.h; Zv/Append is `zv_append` and its helpers,
--              Zv/Tags and Zv/Share the handlers of tags, Zv/Proc the methods; Zv/Table the operations
--              of PHP's tables and the heap; Zv/Trees describes data as a
--              tree, with its text and its value, apart from the decoder
--
-- How the code is written down. The platform has a 64-bit `size_t` and `zend_long`. A byte is a number
-- below 256, a buffer or a string the list of its bytes, and a float its bit pattern. `x | y` of numbers
-- without a common bit is a sum. A function that changes the context takes it and returns it; macros
-- that set an error and return are written as the early return. An error code is a data type with one
-- constructor for each pair of a code and a description, and no error is `none`. The stack of a context
-- is a list with the top first. A PHP array is the list of its entries in order; objects and references
-- are handles into a heap that the state holds. What a function reads from a union is the member that
-- was written last. The test `ZEND_HANDLE_NUMERIC_STR` of PHP and the conversions of short floats are
-- arguments, collected in the record `Engine`.
--
-- Fuel. `nested_loop` takes a unit for each round. It starts with one more than the bytes that are
-- left, and each round that goes on takes a byte at least, so it never runs out. `enc_zval` takes a
-- unit for each call that is open. It starts with two more than the limit of the depth, and a call at a
-- depth above the limit makes no other, so it never runs out either; `no_fuel` is no result of the code.
-- The loop over an iterator takes a unit for each position, from `rounds` of the record `EncEngine`. An
-- iterator of PHP need not end, and the code does not end on one that does not: there every number of
-- rounds is used up. That an iterator ends, or raises, within the rounds is a condition (`AllEnd` of
-- Enc/Balance/Ends) where the end of the encoder matters.
--
-- The encoder. The functions that encode what a value holds take `enc_zval` as an argument. An object is
-- a handle into a heap by class: the calls of PHP functions and casts are data that the heap holds, with
-- the exceptions that they raise, and an iterator is a function from the number of calls of
-- `move_forward` to what it gives there. Counts of references are those at the start, and an array
-- has an identity of its own only as the contents of a reference. The sort of a table, the bytes of a
-- GMP number, the greatest size of a table, the conversion of a double to single precision and the
-- processor's instruction for half precision are collected in `EncEngine`.
--
-- What is not modelled: counting references and freeing, the pool of stack items, the capacity that a
-- table is created with, the branches of HASH_OBJ in src/encode.c, which no caller passes, user code
-- that changes what is being encoded, the clone that is spared for a string object that nobody else holds, and the
-- parts of the program that are not named above.
pub mod Base
pub mod Codec
pub mod Decimal
pub mod Decode
pub mod Di
pub mod Enc
pub mod Floats
pub mod Options
pub mod Utf8
pub mod Zv
mod Tests
