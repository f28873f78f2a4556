-- ===== src/Decode/Rounds.antt =====
-- src/decode.c, `decode_nested`: a round over a token that the encoder's functions wrote.
use php_ext_cbor.Base.{
  ℕ, zero, suc, ◌+◌, ◌-◌, ◌≤◌, ◌≡◌, inl, inr, refl, sym, ap, ◌∙◌, false, Option, none, some, List,
  [], ◌∷◌, ◌++◌, leb, length, arith, Bool-cases, length-append, take, drop, length-take,
  drop-length,
}
use php_ext_cbor.Codec.{CborError, Fragment}
use php_ext_cbor.Decode.{Ctx, Methods}
use php_ext_cbor.Decode.Item.{ItemResult}
use php_ext_cbor.Decode.Tokens.{Token, write_token, event_of, InRange}
use php_ext_cbor.Decode.Written.{dec_item-write_token}
use php_ext_cbor.Decode.Process.{
  Outcome, done, Round, rest_of, advance, round, go_on, after_item, nested_loop,
}

-- The bytes that are left begin with `s`.
abbrev pub Before : List ℕ → List ℕ → Fragment → Type 0
Before s more mem = rest_of mem ≡ s ++ more

drop_nil : (n : ℕ) → drop {A = ℕ} n [] ≡ []
drop_nil zero = refl
drop_nil (suc n) = refl

take_nil : (n : ℕ) → take {A = ℕ} n [] ≡ []
take_nil zero = refl
take_nil (suc n) = refl

drop-drop : (i j k : ℕ) (xs : List ℕ) → k ≡ i + j → drop k xs ≡ drop j (drop i xs)
drop-drop zero j k xs e = let same : k ≡ j = omega (arith, e) in rw same refl
drop-drop (suc i) j zero xs e = absurd (omega (arith, e))
drop-drop (suc i) j (suc k) [] e = sym (drop_nil j)
drop-drop (suc i) j (suc k) (x ∷ xs) e = drop-drop i j k xs (omega (arith, e))

take-drop : (i n k : ℕ) (xs : List ℕ) → k ≡ n - i → take k (drop i xs) ≡ drop i (take n xs)
take-drop zero n k xs e = let same : k ≡ n = omega (arith, e) in rw same refl
take-drop (suc i) zero k xs e = let none_left : k ≡ 0 = omega (arith, e) in rw none_left refl
take-drop (suc i) (suc n) k [] e = take_nil k
take-drop (suc i) (suc n) k (x ∷ xs) e = take-drop i n k xs (omega (arith, e))

-- Behind them, the rest is left.
pub Before-advance :
    (s more : List ℕ) (mem : Fragment) → Before s more mem → rest_of (advance (length s) mem) ≡ more
Before-advance s more mem h =
    rw (drop-drop mem.offset (length s) (mem.offset + length s) mem.ptr refl) (
      take-drop (length s) (mem.length - mem.offset) (mem.length - (mem.offset + length s))
        (drop mem.offset mem.ptr) (omega arith)
      ∙ ap (drop (length s)) h
      ∙ drop-length s more)

-- They are inside the fragment.
pub fits-Before :
    (s more : List ℕ) (mem : Fragment)
    → Before s more mem
    → length s + length more ≤ mem.length - mem.offset
fits-Before s more mem h = omega (
  arith,
  ap length h,
  length-append s more,
  length-take (mem.length - mem.offset) (drop mem.offset mem.ptr),
)

-- A fragment with bytes left is not at its end.
open-Before :
    (s more : List ℕ) (mem : Fragment)
    → Before s more mem
    → 1 ≤ length s
    → leb mem.length mem.offset ≡ false
open-Before s more mem h one = elim (Bool-cases (leb mem.length mem.offset)) [
  | inl e ↦
      let nothing : mem.length - mem.offset ≡ 0 = ground arith in
      absurd (
        omega (
          arith,
          ap length h,
          length-append s more,
          length-take (mem.length - mem.offset) (drop mem.offset mem.ptr),
        ))
  | inr e ↦ e
]

pub length-write_token : (t : Token) → 1 ≤ length (write_token [] t)
unfolding write_token
length-write_token t = ground (arith)

module _ {I U V : Type 0} (m : Methods I U V) where
  -- The loop behind a round.
  unfoldable pub resume : ℕ → Round m → Outcome (Option CborError × Ctx I U)
  unfolding nested_loop
  resume fuel (Round.ret e ctx) = done (e, ctx)
  resume fuel (Round.again ctx) = nested_loop m fuel ctx

  resume-round :
      (fuel : ℕ) (ctx : Ctx I U) (x : Round m)
      → round m ctx ≡ x
      → nested_loop m (suc fuel) ctx ≡ resume fuel x
  unfolding resume nested_loop
  resume-round fuel ctx (Round.ret e c) p = rw (nested_loop, p) refl
  resume-round fuel ctx (Round.again c) p = rw (nested_loop, p) refl

  after_item-Calls :
      (r : ItemResult I U) (n : ℕ) (c : Ctx I U)
      → r.0 ≡ none
      → r.1.read_len ≡ n
      → r.2 ≡ c
      → after_item m r ≡ go_on m c.cb_error (record c { mem = advance n c.mem })
  unfolding after_item
  after_item-Calls (some e, out, c') n c p q s = absurd (cc p)
  after_item-Calls (none, out, c') n c p q s = rw (q, s) refl

  -- The round calls the token's method, and moves on behind the token.
  pub nested_loop-token :
      (fuel : ℕ) (t : Token) (more : List ℕ) (ctx : Ctx I U)
      → InRange t
      → Before (write_token [] t) more ctx.mem
      → let c = m.proc (event_of t) ctx in
        nested_loop m (suc fuel) ctx
        ≡ resume fuel
            (go_on m c.cb_error (record c { mem = advance (length (write_token [] t)) c.mem }))
  unfolding round
  nested_loop-token fuel t more ctx h b =
      let calls = dec_item-write_token m more ctx t h in
      let inside = open-Before (write_token [] t) more ctx.mem b (length-write_token t) in
      resume-round fuel ctx _
        (rw (round, inside, b) (after_item-Calls _ _ _ calls.0 calls.1 calls.2))
