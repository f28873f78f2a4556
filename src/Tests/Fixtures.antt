-- ===== src/Tests/Fixtures.antt =====
-- Concrete arguments for the examples: an engine, arguments of a decoder and contexts.
use php_ext_cbor.Base.{ℕ, true, none, [], List, length}
use php_ext_cbor.Codec.{DecodeArgs}
use php_ext_cbor.Zv.{Engine, null, ZvState, ZvCtx}

abbrev pub plain_engine : Engine
plain_engine = record { numeric_key = λ s. none; from_fp16 = λ n. n; from_fp32 = λ n. n }

abbrev pub empty_state : ZvState
empty_state = record { root = null; srns = []; refs = []; objects = []; cells = [] }

-- Flags CBOR_BYTE | CBOR_KEY_BYTE | CBOR_INT_KEY | CBOR_MAP_AS_ARRAY.
abbrev pub default_args : DecodeArgs
default_args = record {
  flags = 0x4d;
  max_depth = 64;
  max_size = 65536;
  offset = 0;
  length = none;
  string_ref = true;
  shared_ref = 0;
  edn = record { indent = 0; indent_char = 0; space = true; byte_space = 0; byte_wrap = 0 };
}

-- A context before the first item of a text.
abbrev pub fresh_ctx : List ℕ → ZvCtx
fresh_ctx bytes = record {
  args = default_args;
  error_offset = 0;
  cb_error = none;
  skip_self_desc = true;
  mem = record { length = length bytes; offset = 0; limit = length bytes; base = 0; ptr = bytes };
  stack = [];
  stack_depth = 0;
  u = empty_state;
}
