-- ===== src/Enc/Balance/Whole.antt =====
-- `enc_zval` and `cbor_encode` of src/encode.c: the fuel is enough, and a value leaves the context
-- balanced.
use php_ext_cbor.Base.{
  ℕ, zero, suc, ◌+◌, ◌-◌, ◌≤◌, ◌<◌, ◌≡◌, ◌≢◌, refl, ◌∙◌, ap, inl, inr, Bool-cases, Bool, true,
  false, not, ◌&&◌, ◌||◌, Option, none, some, ltb, ◌==◌, if◌then◌else◌, if-elim, arith, get_elem?,
}
use php_ext_cbor.Codec.{CborError}
use php_ext_cbor.Codec.Opt
use php_ext_cbor.Options.{Stored}
use php_ext_cbor.Options.Encoding.{
  EncodeArgs, ClassOptions, check_encode_params, override_encode_options,
}
use php_ext_cbor.Zv.{Zval, Entries}
use php_ext_cbor.Enc.{
  EncCtx, EncEngine, Heap, Held, Instance, ParamsOf, Status, good, failed, no_fuel, Place, place_in,
  ◌>>=◌,
}
use php_ext_cbor.Enc.Hash.{protect, unprotect}
use php_ext_cbor.Enc.Params.{
  clear_flags, set_flags, apply_params, restore, enc_encodeparams, in_args,
}
use php_ext_cbor.Enc.Encode.{
  enc_std_class, enc_instance, enc_held, enc_direct, enc_reference, enc_any, enc_zval, leave,
  encode, encode_start, is_object_value, out_of_fuel, result_of,
}
use php_ext_cbor.Enc.Balance.{
  Balanced, kept, gave_up, Same-refl, Balanced-Same, Balanced-followed, guarded, Encodes,
}
use php_ext_cbor.Enc.Balance.Parts.{
  enc_string-Balanced, enc_php_string-Balanced, enc_ref_counted-Balanced, enc_datetime-Balanced,
  enc_uri-Balanced, enc_bignum-Balanced, enc_decimal-Balanced,
}
use php_ext_cbor.Enc.Balance.Containers.{
  At, At-Same, enc_hash-Balanced, enc_shareable-Balanced, enc_tag-Balanced, protected-Balanced,
  enc_serializable-Balanced,
}
use php_ext_cbor.Enc.Balance.Ends.{InstanceEnds, HeldEnds, AllEnd, AllEnd-get}
use php_ext_cbor.Enc.Balance.Traversal.{enc_traversable-Balanced}

-- New arguments leave the rest of the context alone, and the limit.
abbrev Rest : EncCtx → EncCtx × Status → Type 0
Rest a (c, good) =
    (c.args.max_depth ≡ a.args.max_depth)
    × (c.cur_depth ≡ a.cur_depth)
    × (c.in_enc_params ≡ a.in_enc_params)
    × (c.protected ≡ a.protected)
Rest a (c, failed e) = Unit {0}
Rest a (c, no_fuel) = ⊥

Rest-refl : (c : EncCtx) → Rest c (c, good)
Rest-refl c = (refl, refl, refl, refl)

Rest-trans : (a c : EncCtx) (r : EncCtx × Status) → Rest a (c, good) → Rest c r → Rest a r
Rest-trans a c (d, good) p q = (q.0 ∙ p.0, q.1 ∙ p.1, q.2 ∙ p.2, q.3 ∙ p.3)
Rest-trans a c (d, failed e) p q = tt
Rest-trans a c (d, no_fuel) p q = q

Rest-bind :
    (a : EncCtx) (r : EncCtx × Status) (f : EncCtx → EncCtx × Status)
    → Rest a r
    → ((c : EncCtx) → Rest c (f c))
    → Rest a (r >>= f)
Rest-bind a (c, good) f h next = Rest-trans a c (f c) h (next c)
Rest-bind a (c, failed e) f h next = tt
Rest-bind a (c, no_fuel) f h next = h

clear_flags-Rest : (c : EncCtx) (o : Option Zval) → Rest c (clear_flags c o)
unfolding clear_flags
clear_flags-Rest c none = Rest-refl c
clear_flags-Rest c (some (Zval.long n)) = ground arith
clear_flags-Rest c (some _) = tt

set_flags-Rest : (c : EncCtx) (o : Option Zval) → Rest c (set_flags c o)
unfolding set_flags
set_flags-Rest c none = Rest-refl c
set_flags-Rest c (some (Zval.long n)) = Rest-refl c
set_flags-Rest c (some _) = tt

-- The options of the classes, and the check of the flags, leave the limit alone.
override-limit :
    (a : EncodeArgs) (o : ClassOptions) → (override_encode_options a o).1.max_depth ≡ a.max_depth
unfolding override_encode_options
override-limit a o = ground arith

check-limit : (a : EncodeArgs) → (check_encode_params a).1.max_depth ≡ a.max_depth
unfolding check_encode_params
check-limit a = ground arith

in_args-Rest :
    (c : EncCtx) (r : Stored EncodeArgs) → r.1.max_depth ≡ c.args.max_depth → Rest c (in_args c r)
in_args-Rest c (none, a) h = (h, refl, refl, refl)
in_args-Rest c (some e, a) h = tt

apply_params-Rest : (c : EncCtx) (p : ParamsOf) → Rest c (apply_params c p)
unfolding apply_params
apply_params-Rest c p = Rest-bind c _ _ (clear_flags-Rest c p.flags_clear) (λ c.
    Rest-bind c _ _ (set_flags-Rest c p.flags) (λ c.
      Rest-bind c _ _
        (in_args-Rest c (override_encode_options c.args p.class_options)
          (override-limit c.args p.class_options))
        (λ c. in_args-Rest c (check_encode_params c.args) (check-limit c.args))))

module _ (engine : EncEngine) (heap : Heap) (enc : EncCtx → Zval → EncCtx × Status)
    {limit level : ℕ} (ok : Encodes limit level enc)
    (all_end : AllEnd engine.rounds heap.objects) where
  -- Under new arguments the value is balanced, and afterwards the old arguments are back.
  restored :
      (c inner : EncCtx) (shared : Bool) (r : EncCtx × Status) (f : EncCtx → EncCtx × Status)
      → At limit level inner
      → Rest inner r
      → ((d : EncCtx) → At limit level d → d.protected ≡ inner.protected → Balanced d (f d))
      → inner.cur_depth ≡ c.cur_depth
      → inner.protected ≡ c.protected
      → (if shared then inner.in_enc_params - 1 else inner.in_enc_params) ≡ c.in_enc_params
      → Balanced c (restore c.args shared (r >>= f))
  restored c inner shared (d, good) f h rest next depth prot count =
      settle (next d (rest.0 ∙ h.0, rest.1 ∙ h.1) rest.3)
    where
      settle : {r : EncCtx × Status} → Balanced d r → Balanced c (restore c.args shared r)
      settle (kept s) = kept (
        refl,
        s.1 ∙ rest.1 ∙ depth,
        ap (λ (n : ℕ). if shared then n - 1 else n) (s.2 ∙ rest.2) ∙ count,
        s.3 ∙ rest.3 ∙ prot,
      )
      settle gave_up = gave_up
  restored c inner shared (d, failed e) f h rest next depth prot count = gave_up
  restored c inner shared (d, no_fuel) f h rest next depth prot count = absurd rest

  abbrev inner : EncCtx → Bool → EncCtx
  inner c shared = if shared then record c { in_enc_params = c.in_enc_params + 1 } else c

  -- The value behind the new arguments.
  abbrev under : Place → Zval → EncCtx → EncCtx × Status
  under p v ctx = unprotect (some p) (enc (protect (some p) ctx) v)

  params_in :
      (c : EncCtx) (p : Place) (shared : Bool) (ps : ParamsOf)
      → At limit level c
      → place_in p c.protected ≡ false
      → Balanced c (restore c.args shared (apply_params (inner c shared) ps >>= under p ps.value))
  params_in c p true ps h free =
      restored c (inner c true) true _ (under p ps.value) h (apply_params-Rest (inner c true) ps)
        (λ d h' e. protected-Balanced enc ok d p ps.value h' (ap (place_in p) e ∙ free)) refl refl
        (let back : c.in_enc_params + 1 - 1 ≡ c.in_enc_params = omega arith in back)
  params_in c p false ps h free =
      restored c c false _ (under p ps.value) h (apply_params-Rest c ps)
        (λ d h' e. protected-Balanced enc ok d p ps.value h' (ap (place_in p) e ∙ free)) refl refl
        refl

  recursion_in :
      (c : EncCtx) (shared : Bool) (e : CborError)
      → Balanced c (restore c.args shared (inner c shared, failed e))
  recursion_in c shared e = gave_up

  enc_encodeparams-Balanced :
      (c : EncCtx) (p : Place) (n : ℕ) (ps : ParamsOf)
      → At limit level c
      → Balanced c (enc_encodeparams enc c p n ps)
  unfolding enc_encodeparams
  enc_encodeparams-Balanced c p n ps h =
      guarded (λ r. Balanced c (restore c.args (ltb 1 n) r)) (place_in p c.protected)
        (recursion_in c (ltb 1 n) _) (params_in c p (ltb 1 n) ps h)

  enc_std_class-Balanced :
      (c : EncCtx) (p : Place) (n : ℕ) (b : Bool) (es : Entries)
      → At limit level c
      → Balanced c (enc_std_class engine heap enc c p n b es)
  unfolding enc_std_class
  enc_std_class-Balanced c p n b es h =
      if-elim (Balanced c) (ltb 0 c.args.shared_ref && (ltb 1 n || b || ltb 0 c.in_enc_params))
        (Balanced-followed _ (enc_ref_counted-Balanced c p) (λ c' s.
          Balanced-Same s
            (enc_hash-Balanced enc ok engine c' (some p) false es (At-Same c c' h s))))
        (enc_hash-Balanced enc ok engine c (some p) false es h)

  enc_instance-Balanced :
      (c : EncCtx) (p : Place) (n : ℕ) (b : Bool) (i : Instance)
      → InstanceEnds engine.rounds i
      → At limit level c
      → Balanced c (enc_instance engine heap enc c p n b i)
  unfolding enc_instance
  enc_instance-Balanced c p n b (Instance.byte s) ends h = enc_string-Balanced c s false
  enc_instance-Balanced c p n b (Instance.text s) ends h = enc_string-Balanced c s true
  enc_instance-Balanced c p n b (Instance.float16 f) ends h = kept (Same-refl c)
  enc_instance-Balanced c p n b (Instance.float32 f) ends h = kept (Same-refl c)
  enc_instance-Balanced c p n b (Instance.tag t v) ends h = enc_tag-Balanced enc ok c t v h
  enc_instance-Balanced c p n b (Instance.shareable v) ends h =
      enc_shareable-Balanced enc ok heap c p v h
  enc_instance-Balanced c p n b (Instance.std_class es) ends h = enc_std_class-Balanced c p n b es h
  enc_instance-Balanced c p n b (Instance.encode_params ps) ends h =
      enc_encodeparams-Balanced c p n ps h
  enc_instance-Balanced c p n b (Instance.serializable call) ends h =
      enc_serializable-Balanced enc ok c p call h
  enc_instance-Balanced c p n b (Instance.traversable o it) ends h =
      enc_traversable-Balanced enc ok engine c p o it ends h
  enc_instance-Balanced c p n b (Instance.date call) ends h =
      if-elim (Balanced c) c.args.datetime (enc_datetime-Balanced c call) gave_up
  enc_instance-Balanced c p n b (Instance.gmp g) ends h =
      if-elim (Balanced c) c.args.bignum (enc_bignum-Balanced engine c g) gave_up
  enc_instance-Balanced c p n b (Instance.decimal d) ends h =
      if-elim (Balanced c) c.args.decimal (enc_decimal-Balanced engine c d) gave_up
  enc_instance-Balanced c p n b (Instance.uri call) ends h =
      if-elim (Balanced c) c.args.uri (enc_uri-Balanced c call) gave_up
  enc_instance-Balanced c p n b Instance.unknown ends h = gave_up

  enc_held-Balanced :
      (c : EncCtx) (i : ℕ) (b : Bool) (o : Option Held)
      → HeldEnds engine.rounds o
      → At limit level c
      → Balanced c (enc_held engine heap enc c i b o)
  enc_held-Balanced c i b none ends h = gave_up
  enc_held-Balanced c i b (some held) ends h =
      enc_instance-Balanced c (Place.object i) held.refcount b held.instance_of ends h

  enc_direct-Balanced :
      (place : Option Place) (b : Bool) (c : EncCtx) (v : Zval)
      → At limit level c
      → Balanced c (enc_direct engine heap enc place b c v)
  unfolding enc_direct
  enc_direct-Balanced place b c Zval.null h = kept (Same-refl c)
  enc_direct-Balanced place b c (Zval.boolean x) h = kept (Same-refl c)
  enc_direct-Balanced place b c (Zval.long x) h = kept (Same-refl c)
  enc_direct-Balanced place b c (Zval.double x) h = kept (Same-refl c)
  enc_direct-Balanced place b c (Zval.string s) h = enc_php_string-Balanced c s
  enc_direct-Balanced place b c (Zval.array es) h =
      enc_hash-Balanced enc ok engine c place true es h
  enc_direct-Balanced place b c Zval.undefined h = kept (Same-refl c)
  enc_direct-Balanced place b c (Zval.object i) h =
      enc_held-Balanced c i b (get_elem? heap.objects i)
        (AllEnd-get engine.rounds heap.objects i all_end) h
  enc_direct-Balanced place b c (Zval.reference i) h = gave_up
  enc_direct-Balanced place b c Zval.undef h = gave_up
  enc_direct-Balanced place b c (Zval.xuint n) h = gave_up
  enc_direct-Balanced place b c (Zval.xnint n) h = gave_up

  enc_reference-Balanced :
      (c : EncCtx) (p : Place) (o : Option Zval)
      → At limit level c
      → Balanced c (enc_reference engine heap enc c p o)
  unfolding enc_reference
  enc_reference-Balanced c p none h = gave_up
  enc_reference-Balanced c p (some v) h =
      if-elim (Balanced c) ((c.args.shared_ref == Opt.unsafe_ref) && not (is_object_value v))
        (Balanced-followed _ (enc_ref_counted-Balanced c p)
          (λ c' s. Balanced-Same s (enc_direct-Balanced (some p) true c' v (At-Same c c' h s))))
        (enc_direct-Balanced (some p) true c v h)

  enc_any-Balanced :
      (c : EncCtx) (v : Zval) → At limit level c → Balanced c (enc_any engine heap enc c v)
  unfolding enc_any
  enc_any-Balanced c (Zval.reference i) h =
      enc_reference-Balanced c (Place.cell i) (get_elem? heap.cells i) h
  enc_any-Balanced c Zval.null h = enc_direct-Balanced none false c Zval.null h
  enc_any-Balanced c v h = enc_direct-Balanced none false c v h

Balanced-leave :
    (c : EncCtx) {r : EncCtx × Status}
    → Balanced (record c { cur_depth = c.cur_depth + 1 }) r
    → Balanced c (leave r)
Balanced-leave c (kept h) =
    kept (h.0, (let back : _ - 1 ≡ c.cur_depth = omega (arith, h.1) in back), h.2, h.3)
Balanced-leave c gave_up = gave_up

result-ne-out_of_fuel :
    {c : EncCtx} {r : EncCtx × Status} → Balanced c r → result_of r ≢ out_of_fuel
result-ne-out_of_fuel (kept h) e = cc
result-ne-out_of_fuel gave_up e = cc

start-At : (args : EncodeArgs) → At args.max_depth 0 (encode_start args)
unfolding encode_start
start-At args =
    if-elim (At args.max_depth 0) (args.string_ref == Opt.opt_true) (refl, refl) (refl, refl)

module _ (engine : EncEngine) (heap : Heap) (all_end : AllEnd engine.rounds heap.objects) where
  -- A value leaves the arguments, the depth, the count of shared parameters and the protected values as
  -- they were, or there is an error of the code: the fuel does not run out, if it is above the number
  -- of calls that the limit of the depth leaves, and if every iterator of the heap ends or raises
  -- within the engine's `rounds`.
  pub enc_zval-Balanced :
      (fuel : ℕ) (c : EncCtx) (v : Zval)
      → c.cur_depth ≤ c.args.max_depth + 1
      → c.args.max_depth + 1 < fuel + c.cur_depth
      → Balanced c (enc_zval engine heap fuel c v)
  unfolding enc_zval
  enc_zval-Balanced zero c v shallow h = absurd (omega arith)
  enc_zval-Balanced (suc fuel) c v shallow h =
      elim (Bool-cases (ltb c.args.max_depth c.cur_depth)) [
        | inl deep ↦ rw deep gave_up
        | inr e ↦
            let allowed : c.cur_depth ≤ c.args.max_depth = ground arith in
            let inner : EncCtx = record c { cur_depth = c.cur_depth + 1 } in
            rw e (
              Balanced-leave c (
                enc_any-Balanced engine heap (enc_zval engine heap fuel) {limit = c.args.max_depth}
                  {level = c.cur_depth + 1}
                  (λ d w limit level. enc_zval-Balanced fuel d w (omega arith) (omega arith))
                  all_end inner v (refl, refl)))
      ]

  -- `cbor_encode` ends on every value with every argument, if every iterator of the heap ends or raises
  -- within the engine's `rounds`: it gives a text or an error.
  pub encode-ne-out_of_fuel :
      (args : EncodeArgs) (v : Zval) → encode engine heap args v ≢ out_of_fuel
  unfolding encode
  encode-ne-out_of_fuel args v =
      let at = start-At args in
      result-ne-out_of_fuel
        (enc_zval-Balanced (args.max_depth + 2) (encode_start args) v (omega arith) (omega arith))
