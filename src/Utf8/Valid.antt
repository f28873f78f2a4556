-- ===== src/Utf8/Valid.antt =====
-- src/utf8.c, `cbor_is_utf8`: it accepts exactly the encodings of scalar values.
use php_ext_cbor.Base.{
  ℕ, ◌+◌, ◌*◌, ◌/◌, ◌≤◌, ◌<◌, ◌≡◌, inl, inr, refl, sym, ap, ◌∙◌, List, [], ◌∷◌, ◌++◌, ltb, lt→ltb,
  arith, Bool-cases,
}
use php_ext_cbor.Utf8.{run, skip_ascii}
use php_ext_cbor.Utf8.Encoding.{IsScalar, tail_byte, encode_char, encode_text, AllScalar}
use php_ext_cbor.Utf8.Table.{next_state-by_range, next_by_range, lead}
use php_ext_cbor.Di.{IsByte}

abbrev pub AllBytes : List ℕ → Type 0
AllBytes [] = Unit
AllBytes (b ∷ bs) = IsByte b × AllBytes bs

-- A byte behind the state `12 * k`, and the run from there.
pub run_step :
    (k b : ℕ) (bs : List ℕ)
    → k < 9
    → b < 256
    → run (12 * k) (b ∷ bs) ≡ run (next_by_range (12 * k) b) bs
unfolding run
run_step k b bs hk hb = ap (λ s. run s bs) (next_state-by_range k b hk hb)

-- A rejected text stays rejected.
pub run_reject : (bs : List ℕ) → AllBytes bs → run 12 bs ≡ 12
unfolding run
run_reject [] h = refl
run_reject (b ∷ bs) h = run_step 1 b bs (omega arith) h.0 ∙ run_reject bs h.1

-- The same with the state behind the byte named.
step :
    (k s' b : ℕ) (bs : List ℕ)
    → k < 9
    → b < 256
    → next_by_range (12 * k) b ≡ s'
    → run (12 * k) (b ∷ bs) ≡ run s' bs
step k s' b bs hk hb e = run_step k b bs hk hb ∙ ap (λ s. run s bs) e

module _ (cp : ℕ) (rest : List ℕ) where
  one_tail : run 24 (tail_byte cp 1 ∷ rest) ≡ run 0 rest
  one_tail = step 2 0 _ rest (omega arith) (omega arith) (ground arith)

  two_tails : run 36 (tail_byte cp 64 ∷ tail_byte cp 1 ∷ rest) ≡ run 0 rest
  two_tails = step 3 24 _ _ (omega arith) (omega arith) (ground arith) ∙ one_tail

  short_char : cp < 0x800 → run 0 (encode_char cp ++ rest) ≡ run 0 rest
  unfolding encode_char
  short_char h = elim (Bool-cases (ltb cp 0x80)) [
    | inl e ↦ rw e (step 0 0 cp rest (omega arith) (ground arith) (ground arith))
    | inr e ↦
        rw (e, lt→ltb _ _ h)
          (step 0 24 (0xc0 + cp / 64) _ (omega arith) (omega arith) (ground arith) ∙ one_tail)
  ]

  -- The second byte of three, in the state behind the first, and then the third.
  second_of_three :
      (k : ℕ)
      → k < 9
      → next_by_range (12 * k) (tail_byte cp 64) ≡ 24
      → run (12 * k) (tail_byte cp 64 ∷ tail_byte cp 1 ∷ rest) ≡ run 0 rest
  second_of_three k hk e = step k 24 _ _ hk (omega arith) e ∙ one_tail

  second_of_four :
      (k : ℕ)
      → k < 9
      → next_by_range (12 * k) (tail_byte cp 4096) ≡ 36
      → run (12 * k) (tail_byte cp 4096 ∷ tail_byte cp 64 ∷ tail_byte cp 1 ∷ rest) ≡ run 0 rest
  second_of_four k hk e = step k 36 _ _ hk (omega arith) e ∙ two_tails

  long_char : 0x800 ≤ cp → cp < 0x1_0000 → IsScalar cp → run 0 (encode_char cp ++ rest) ≡ run 0 rest
  unfolding encode_char
  long_char lo hi h = ground (
    arith,
    step 0 (lead (0xe0 + cp / 4096)) (0xe0 + cp / 4096) (tail_byte cp 64 ∷ tail_byte cp 1 ∷ rest)
        (omega arith) (omega arith) refl,
    second_of_three 4 (omega arith),
    second_of_three 5 (omega arith),
    second_of_three 3 (omega arith),
  )

  wide_char : 0x1_0000 ≤ cp → cp < 0x11_0000 → run 0 (encode_char cp ++ rest) ≡ run 0 rest
  unfolding encode_char
  wide_char lo hi = ground (
    arith,
    step 0 (lead (0xf0 + cp / 262144)) (0xf0 + cp / 262144)
        (tail_byte cp 4096 ∷ tail_byte cp 64 ∷ tail_byte cp 1 ∷ rest) (omega arith) (omega arith)
        refl,
    second_of_four 6 (omega arith),
    second_of_four 7 (omega arith),
    second_of_four 8 (omega arith),
  )

-- One encoded character takes the automaton from accepting to accepting.
pub run-encode_char :
    (cp : ℕ) (rest : List ℕ) → IsScalar cp → run 0 (encode_char cp ++ rest) ≡ run 0 rest
run-encode_char cp rest h = ground (arith, short_char cp rest, long_char cp rest, wide_char cp rest)

pub run-encode_text : (cps : List ℕ) → AllScalar cps → run 0 (encode_text cps) ≡ 0
unfolding encode_text run
run-encode_text [] h = refl
run-encode_text (cp ∷ cps) h = run-encode_char cp (encode_text cps) h.0 ∙ run-encode_text cps h.1

-- The loop over ASCII changes nothing: the automaton accepts such a byte and stays.
pub run-skip_ascii : (bs : List ℕ) → run 0 (skip_ascii bs) ≡ run 0 bs
unfolding skip_ascii
run-skip_ascii [] = refl
run-skip_ascii (b ∷ bs) = elim (Bool-cases (ltb b 0x80)) [
  | inl e ↦
      rw (e, skip_ascii)
        (run-skip_ascii bs ∙ sym (step 0 0 b bs (omega arith) (ground arith) (ground arith)))
  | inr e ↦ rw (e, skip_ascii)
]
