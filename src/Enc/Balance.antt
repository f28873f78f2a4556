-- ===== src/Enc/Balance.antt =====
-- src/encode.c: what an encoding function does to the context. An outcome is balanced if it is an
-- error of the code, or the arguments, the depth, the count of shared parameters and the protected
-- values are those from before.
pub mod Parts
pub mod Ends
pub mod Containers
pub mod Traversal
pub mod Whole
use php_ext_cbor.Base.{
  Bool, true, false, Bool-cases, inl, inr, ap, arith, if◌then◌else◌, ℕ, [], ◌≡◌, refl, ◌∙◌, List,
  Option, none, some, ◌∷◌,
}
use php_ext_cbor.Codec.{CborError}
use php_ext_cbor.Options.Encoding.{EncodeArgs}
use php_ext_cbor.Zv.{Zval}
use php_ext_cbor.Enc.{
  EncCtx, Status, good, failed, no_fuel, Follow, ends, value_follows, Place, same_place, place_in,
  without, ◌>>=◌,
}
use php_ext_cbor.Enc.Hash.{is_recursive, protect, unprotect}
use php_ext_cbor.Enc.Shared.{followed}

abbrev pub Same : EncCtx → EncCtx → Type 0
Same before after =
    (after.args ≡ before.args)
    × (after.cur_depth ≡ before.cur_depth)
    × (after.in_enc_params ≡ before.in_enc_params)
    × (after.protected ≡ before.protected)

pub data Balanced (before : EncCtx) : EncCtx × Status → Type 0 where
  kept : {c : EncCtx} → Same before c → Balanced before (c, good)
  gave_up : {c : EncCtx} {e : CborError} → Balanced before (c, failed e)

-- The same with a value that may be left to the caller.
pub data BalancedFollow (before : EncCtx) : EncCtx × Follow → Type 0 where
  ended : {c : EncCtx} {s : Status} → Balanced before (c, s) → BalancedFollow before (c, ends s)
  follows : {c : EncCtx} → Same before c → BalancedFollow before (c, value_follows)

pub Same-refl : (c : EncCtx) → Same c c
Same-refl c = (refl, refl, refl, refl)

-- What is balanced after a context that is the same is so before it.
pub Balanced-Same : {a b : EncCtx} {r : EncCtx × Status} → Same a b → Balanced b r → Balanced a r
Balanced-Same p (kept q) = kept (q.0 ∙ p.0, q.1 ∙ p.1, q.2 ∙ p.2, q.3 ∙ p.3)
Balanced-Same p gave_up = gave_up

pub Balanced-bind :
    {a : EncCtx} {r : EncCtx × Status} (f : EncCtx → EncCtx × Status)
    → Balanced a r
    → ((c : EncCtx) → Same a c → Balanced a (f c))
    → Balanced a (r >>= f)
Balanced-bind f (kept p) next = next _ p
Balanced-bind f gave_up next = gave_up

pub Balanced-followed :
    {a : EncCtx} {r : EncCtx × Follow} (f : EncCtx → EncCtx × Status)
    → BalancedFollow a r
    → ((c : EncCtx) → Same a c → Balanced a (f c))
    → Balanced a (followed f r)
Balanced-followed f (ended p) next = p
Balanced-followed f (follows p) next = next _ p

same_place_refl : (p : Place) → same_place p p ≡ true
unfolding same_place
same_place_refl (Place.object i) = ground arith
same_place_refl (Place.cell i) = ground arith

-- A value without a mark is left alone.
without-absent : (p : Place) (l : List Place) → place_in p l ≡ false → without p l ≡ l
unfolding without place_in
without-absent p [] h = refl
without-absent p (q ∷ l) h = elim (Bool-cases (same_place q p)) [
  | inl e ↦ absurd (ground (arith, e, h))
  | inr e ↦ rw e (ap (λ (t : List Place). q ∷ t) (without-absent p l (rw e at h)))
]

without-front : (p : Place) (l : List Place) → place_in p l ≡ false → without p (p ∷ l) ≡ l
unfolding without
without-front p l h = rw (same_place_refl p) (without-absent p l h)

-- The protection of a value that was not protected before ends with the function.
pub Balanced-unprotect :
    (a : EncCtx) (p : Option Place) {r : EncCtx × Status}
    → is_recursive a p ≡ false
    → Balanced (protect p a) r
    → Balanced a (unprotect p r)
Balanced-unprotect a none e h = h
Balanced-unprotect a (some p) e (kept h) =
    kept (h.0, h.1, h.2, ap (without p) h.3 ∙ without-front p a.protected e)
Balanced-unprotect a (some p) e gave_up = gave_up

-- An error where the value is protected already, and else the function.
pub guarded :
    {A : Type 0} (P : A → Type 0) (b : Bool) {x y : A}
    → P x
    → (b ≡ false → P y)
    → P (if b then x else y)
guarded P true h k = h
guarded P false h k = k refl

-- A function that encodes a value is balanced in every context of this limit and this depth.
abbrev pub Encodes : ℕ → ℕ → (EncCtx → Zval → EncCtx × Status) → Type 0
Encodes limit level enc =
    (c : EncCtx) (v : Zval) → c.args.max_depth ≡ limit → c.cur_depth ≡ level → Balanced c (enc c v)
