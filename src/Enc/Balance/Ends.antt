-- ===== src/Enc/Balance/Ends.antt =====
-- The iterators of src/encode.c that end, or raise, within a number of rounds. PHP's iterators need not
-- end.
use php_ext_cbor.Base.{
  ℕ, zero, suc, ◌+◌, ◌≡◌, ◌⊎◌, ◌∙◌, sym, inl, inr, Bool, true, false, Option, none, some, List, [],
  ◌∷◌, get_elem?,
}
use php_ext_cbor.Enc.{Step, Iterator, Instance, Held}

-- The iterator has not ended, and nothing was raised.
abbrev pub goes_on : Step → Bool
goes_on (Step.item k v) = true
goes_on s = false

-- The iterator ends, or raises, at one of so many positions from `i` on.
abbrev pub EndsWithin : ℕ → Iterator → ℕ → Type 0
EndsWithin zero it i = ⊥
EndsWithin (suc n) it i = (goes_on (it i) ≡ false) ⊎ EndsWithin n it (i + 1)

pub ends_later :
    (n : ℕ) (it : Iterator) (i : ℕ)
    → EndsWithin (suc n) it i
    → goes_on (it i) ≡ true
    → EndsWithin n it (i + 1)
ends_later n it i (inl e) on = absurd (cc (sym e ∙ on))
ends_later n it i (inr h) on = h

-- An object that is traversed has such an iterator.
abbrev pub InstanceEnds : ℕ → Instance → Type 0
InstanceEnds rounds (Instance.traversable o it) = EndsWithin rounds it 0
InstanceEnds rounds i = Unit {0}

abbrev pub HeldEnds : ℕ → Option Held → Type 0
HeldEnds rounds none = Unit {0}
HeldEnds rounds (some held) = InstanceEnds rounds held.instance_of

-- Every iterator of the heap is one.
abbrev pub AllEnd : ℕ → List Held → Type 0
AllEnd rounds [] = Unit {0}
AllEnd rounds (held ∷ objects) = InstanceEnds rounds held.instance_of × AllEnd rounds objects

pub AllEnd-get :
    (rounds : ℕ) (objects : List Held) (i : ℕ)
    → AllEnd rounds objects
    → HeldEnds rounds (get_elem? objects i)
AllEnd-get rounds [] i h = tt
AllEnd-get rounds (held ∷ objects) zero h = h.0
AllEnd-get rounds (held ∷ objects) (suc i) h = AllEnd-get rounds objects i h.1
