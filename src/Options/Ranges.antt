-- ===== src/Options/Ranges.antt =====
-- src/options.c: what the arguments of a decoder can be once the options were accepted.
use php_ext_cbor.Base.{
  ℕ, ◌+◌, ◌-◌, ◌%◌, ◌^◌, ◌≤◌, ◌<◌, ◌≡◌, inl, inr, refl, ap, true, false, Option, none, some, List,
  [], ◌∷◌, ltb, if◌then◌else◌, length, arith, Bool-cases, if-elim,
}
use php_ext_cbor.Base.Int.{pos}
use php_ext_cbor.Codec.{DecodeArgs, EdnArgs, has_flag}
use php_ext_cbor.Codec.Flag
use php_ext_cbor.Zv.{Zval, boolean, long, string}
use php_ext_cbor.Options.{
  OptionName, Options, Stored, check_error, other_value, stored_or, bool_n_option, long_option,
  uint32_option, shared_names, indent_option, byte_space_option, byte_wrap_option, space_option,
  edn_options, with_max_depth, with_max_size, with_offset, with_length, with_string_ref,
  with_shared_ref, with_edn, clamp_size, set_decode_options,
}

-- An accepted 32-bit option is its old value or the value given modulo 2^32, inside the bounds.
uint32_option-bounds :
    (old min max : ℕ) (v : Option Zval)
    → old ≤ max
    → (uint32_option old min max v).0 ≡ none
    → (uint32_option old min max v).1 ≤ max
unfolding uint32_option
uint32_option-bounds old min max v h e = ground arith

long_option-bounds : (old max : ℕ) (v : Option Zval) → old ≤ max → (long_option old max v).1 ≤ max
unfolding long_option
long_option-bounds old max v h = ground arith

-- The number 2^32 + n passes as the number n: the bounds are compared after the cut to 32 bits.
pub uint32_option-wraps :
    (old min max n : ℕ)
    → uint32_option old min max (some (long (pos (n + 2 ^ 32))))
      ≡ uint32_option old min max (some (long (pos n)))
unfolding uint32_option
uint32_option-wraps old min max n =
    let same : (n + 2 ^ 32) % 2 ^ 32 ≡ n % 2 ^ 32 = omega arith in rw same refl

other_value-bounds :
    (i k : ℕ) (names : List (List ℕ)) (s : List ℕ)
    → other_value i names s ≡ some k
    → k < i + length names
unfolding other_value
other_value-bounds i k [] s e = absurd (cc e)
other_value-bounds i k (name ∷ names) s e = ground (arith, other_value-bounds (i + 1) k names s)

stored-bounds :
    (old max : ℕ) (k : Option ℕ)
    → old ≤ max
    → ((j : ℕ) → k ≡ some j → j ≤ max)
    → (stored_or old k).1 ≤ max
stored-bounds old max none h f = h
stored-bounds old max (some j) h f = f j refl

bool_n_option-shared :
    (old : ℕ) (v : Option Zval) → old ≤ 4 → (bool_n_option old shared_names v).1 ≤ 4
unfolding bool_n_option
bool_n_option-shared old none h = h
bool_n_option-shared old (some (boolean true)) h = omega arith
bool_n_option-shared old (some (boolean false)) h = omega arith
bool_n_option-shared old (some (string s)) h =
    stored-bounds old 4 (other_value 2 shared_names s) h
      λ j e. omega (arith, other_value-bounds 2 j shared_names s e)
bool_n_option-shared old (some v) h = h

-- What holds after a chain of options that ended without an error held of each.
check_error-ok :
    {A : Type 0} (s : Stored A) (more : A → Stored A) (r : A)
    → check_error s more ≡ (none, r)
    → (s.0 ≡ none) × (more s.1 ≡ (none, r))
unfolding check_error
check_error-ok (some e, a) more r p = absurd (cc p)
check_error-ok (none, a) more r p = (refl, p)

-- The formatting of diagnostic notation is in its bounds.
pub record EdnInRange (e : EdnArgs) : Type 0 where
  pub indent_bound : e.indent ≤ 16
  pub byte_space_bound : e.byte_space ≤ 63
  pub byte_wrap_bound : e.byte_wrap ≤ 1024

indent-InRange : (e : EdnArgs) (v : Option Zval) → EdnInRange e → EdnInRange (indent_option e v).1
unfolding indent_option
indent-InRange e v h = ground arith

byte_space-InRange :
    (e : EdnArgs) (v : Option Zval) → EdnInRange e → EdnInRange (byte_space_option e v).1
unfolding byte_space_option
byte_space-InRange e v h = ground arith

byte_wrap-InRange :
    (e : EdnArgs) (v : Option Zval) → EdnInRange e → EdnInRange (byte_wrap_option e v).1
unfolding byte_wrap_option
byte_wrap-InRange e v h = ground arith

check_error-keeps :
    {A : Type 0} (P : A → Type 0) (s : Stored A) (more : A → Stored A)
    → P s.1
    → ((a : A) → P a → P (more a).1)
    → P (check_error s more).1
unfolding check_error
check_error-keeps P (some e, a) more h f = h
check_error-keeps P (none, a) more h f = f a h

edn_options-InRange :
    (e : EdnArgs) (options : Options) → EdnInRange e → EdnInRange (edn_options e options).1
unfolding edn_options
edn_options-InRange e options h =
    let wrap = λ (e : EdnArgs). byte_wrap_option e (options OptionName.byte_wrap) in
    let spaced =
      λ (e : EdnArgs). check_error (byte_space_option e (options OptionName.byte_space)) wrap in
    let rest = λ (e : EdnArgs). check_error (space_option e (options OptionName.space)) spaced in
    check_error-keeps EdnInRange (indent_option e (options OptionName.indent)) rest
      (indent-InRange e (options OptionName.indent) h)
      λ e1 h1.
        check_error-keeps EdnInRange (space_option e1 (options OptionName.space)) spaced
          (record {
            indent_bound = h1.indent_bound;
            byte_space_bound = h1.byte_space_bound;
            byte_wrap_bound = h1.byte_wrap_bound;
          })
          λ e2 h2.
            check_error-keeps EdnInRange (byte_space_option e2 (options OptionName.byte_space)) wrap
              (byte_space-InRange e2 (options OptionName.byte_space) h2)
              λ e3 h3. byte_wrap-InRange e3 (options OptionName.byte_wrap) h3

-- Arguments in the ranges that the options allow: the depth is at most 10000, the size is one that a
-- table can have, positions are in `zend_long`, and the formatting is in its bounds.
pub record InLimits (ht_max_size : ℕ) (a : DecodeArgs) : Type 0 where
  pub depth_bound : a.max_depth ≤ 10000
  pub size_bound : a.max_size ≤ ht_max_size
  pub offset_bound : a.offset < 2 ^ 63
  pub shared_bound : a.shared_ref ≤ 4
  pub formatting : EdnInRange a.edn

module _ (ht_max_size : ℕ) (options : Options) where
  clamp-InLimits :
      (a : DecodeArgs)
      → a.max_depth ≤ 10000
      → a.offset < 2 ^ 63
      → a.shared_ref ≤ 4
      → EdnInRange a.edn
      → InLimits ht_max_size (clamp_size ht_max_size a)
  clamp-InLimits a d o s f = elim (Bool-cases (ltb ht_max_size a.max_size)) [
    | inl e ↦ rw e (record {
      depth_bound = d;
      size_bound = omega arith;
      offset_bound = o;
      shared_bound = s;
      formatting = f;
    })
    | inr e ↦ rw e (record {
      depth_bound = d;
      size_bound = ground arith;
      offset_bound = o;
      shared_bound = s;
      formatting = f;
    })
  ]

  offset-InLimits :
      (a : DecodeArgs) → InLimits ht_max_size a → InLimits ht_max_size (with_offset options a).1
  offset-InLimits a h = record {
    depth_bound = h.depth_bound;
    size_bound = h.size_bound;
    offset_bound = omega (
      arith,
      long_option-bounds a.offset (2 ^ 63 - 1) (options OptionName.offset)
          (omega (arith, h.offset_bound)),
    );
    shared_bound = h.shared_bound;
    formatting = h.formatting;
  }

  length-InLimits :
      (a : DecodeArgs) → InLimits ht_max_size a → InLimits ht_max_size (with_length options a).1
  length-InLimits a h = record {
    depth_bound = h.depth_bound;
    size_bound = h.size_bound;
    offset_bound = h.offset_bound;
    shared_bound = h.shared_bound;
    formatting = h.formatting;
  }

  string_ref-InLimits :
      (a : DecodeArgs) → InLimits ht_max_size a → InLimits ht_max_size (with_string_ref options a).1
  string_ref-InLimits a h = record {
    depth_bound = h.depth_bound;
    size_bound = h.size_bound;
    offset_bound = h.offset_bound;
    shared_bound = h.shared_bound;
    formatting = h.formatting;
  }

  shared_ref-InLimits :
      (a : DecodeArgs) → InLimits ht_max_size a → InLimits ht_max_size (with_shared_ref options a).1
  shared_ref-InLimits a h = record {
    depth_bound = h.depth_bound;
    size_bound = h.size_bound;
    offset_bound = h.offset_bound;
    shared_bound = bool_n_option-shared a.shared_ref (options OptionName.shared_ref) h.shared_bound;
    formatting = h.formatting;
  }

  edn-InLimits :
      (a : DecodeArgs) → InLimits ht_max_size a → InLimits ht_max_size (with_edn options a).1
  edn-InLimits a h = record {
    depth_bound = h.depth_bound;
    size_bound = h.size_bound;
    offset_bound = h.offset_bound;
    shared_bound = h.shared_bound;
    formatting = edn_options-InRange a.edn options h.formatting;
  }

  -- The options behind the two that are stored before they are checked.
  later-InLimits :
      (a : DecodeArgs)
      → InLimits ht_max_size a
      → InLimits ht_max_size
          (check_error (with_offset options a) λ a. check_error (with_length options a) λ a.
            check_error (with_string_ref options a) λ a.
              check_error
                (with_shared_ref options a)
                λ a. if has_flag a.flags Flag.edn then with_edn options a else (none, a)).1
  later-InLimits a h =
      let P = InLimits ht_max_size in
      let edn =
        λ (a : DecodeArgs). if has_flag a.flags Flag.edn then with_edn options a else (none, a) in
      let shared = λ (a : DecodeArgs). check_error (with_shared_ref options a) edn in
      let strings = λ (a : DecodeArgs). check_error (with_string_ref options a) shared in
      let lengths = λ (a : DecodeArgs). check_error (with_length options a) strings in
      check_error-keeps P (with_offset options a) lengths (offset-InLimits a h) λ a1 h1.
        check_error-keeps P (with_length options a1) strings (length-InLimits a1 h1) λ a2 h2.
          check_error-keeps P (with_string_ref options a2) shared (string_ref-InLimits a2 h2)
            λ a3 h3.
              check_error-keeps P (with_shared_ref options a3) edn (shared_ref-InLimits a3 h3)
                λ a4 h4.
                  if-elim (λ (r : Stored DecodeArgs). P r.1) (has_flag a4.flags Flag.edn)
                    (edn-InLimits a4 h4) h4

  -- Options that are accepted leave arguments in the limits, if the arguments were there before.
  pub set_decode_options-InLimits :
      (args a : DecodeArgs)
      → InLimits ht_max_size args
      → set_decode_options ht_max_size args options ≡ (none, a)
      → InLimits ht_max_size a
  unfolding set_decode_options
  set_decode_options-InLimits args a h e =
      let p = check_error-ok (with_max_depth options args) _ a e in
      let q = check_error-ok (with_max_size options (with_max_depth options args).1) _ a p.1 in
      let depth =
        uint32_option-bounds args.max_depth 0 10000 (options OptionName.max_depth) h.depth_bound
          p.0 in
      let before = (with_max_size options (with_max_depth options args).1).1 in
      let limits =
        later-InLimits (clamp_size ht_max_size before)
          (clamp-InLimits before depth h.offset_bound h.shared_bound h.formatting) in
      rw (ap (λ (r : Stored DecodeArgs). r.1) q.1) at limits
