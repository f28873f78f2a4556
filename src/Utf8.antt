-- ===== src/Utf8.antt =====
-- src/utf8.c: the automaton that validates UTF-8 and reads single characters. A pointer and its end
-- are the list of the bytes between them.
pub mod Encoding
pub mod Table
pub mod Valid
pub mod Inversion
pub mod Exact
pub mod Next
use php_ext_cbor.Base.{
  ℕ, zero, suc, ◌+◌, ◌*◌, ◌/◌, ◌%◌, ◌^◌, ◌<◌, Bool, true, false, List, [], ◌∷◌, ltb, ◌==◌,
  if◌then◌else◌, get_or, bit_and,
}

-- The character classes of the 256 bytes, then the transitions: 12 for each state.
unfoldable pub utf8d : List ℕ
utf8d =
    0 ∷ 0 ∷ 0 ∷ 0 ∷ 0 ∷ 0 ∷ 0 ∷ 0 ∷ 0 ∷ 0 ∷ 0 ∷ 0 ∷ 0 ∷ 0 ∷ 0 ∷ 0 ∷ 0 ∷ 0 ∷ 0 ∷ 0 ∷ 0 ∷ 0 ∷ 0 ∷ 0
    ∷ 0 ∷ 0 ∷ 0 ∷ 0 ∷ 0 ∷ 0 ∷ 0 ∷ 0 ∷ 0 ∷ 0 ∷ 0 ∷ 0 ∷ 0 ∷ 0 ∷ 0 ∷ 0 ∷ 0 ∷ 0 ∷ 0 ∷ 0 ∷ 0 ∷ 0 ∷ 0 ∷ 0
    ∷ 0 ∷ 0 ∷ 0 ∷ 0 ∷ 0 ∷ 0 ∷ 0 ∷ 0 ∷ 0 ∷ 0 ∷ 0 ∷ 0 ∷ 0 ∷ 0 ∷ 0 ∷ 0 ∷ 0 ∷ 0 ∷ 0 ∷ 0 ∷ 0 ∷ 0 ∷ 0 ∷ 0
    ∷ 0 ∷ 0 ∷ 0 ∷ 0 ∷ 0 ∷ 0 ∷ 0 ∷ 0 ∷ 0 ∷ 0 ∷ 0 ∷ 0 ∷ 0 ∷ 0 ∷ 0 ∷ 0 ∷ 0 ∷ 0 ∷ 0 ∷ 0 ∷ 0 ∷ 0 ∷ 0 ∷ 0
    ∷ 0 ∷ 0 ∷ 0 ∷ 0 ∷ 0 ∷ 0 ∷ 0 ∷ 0 ∷ 0 ∷ 0 ∷ 0 ∷ 0 ∷ 0 ∷ 0 ∷ 0 ∷ 0 ∷ 0 ∷ 0 ∷ 0 ∷ 0 ∷ 0 ∷ 0 ∷ 0 ∷ 0
    ∷ 0 ∷ 0 ∷ 0 ∷ 0 ∷ 0 ∷ 0 ∷ 0 ∷ 0 ∷ 1 ∷ 1 ∷ 1 ∷ 1 ∷ 1 ∷ 1 ∷ 1 ∷ 1 ∷ 1 ∷ 1 ∷ 1 ∷ 1 ∷ 1 ∷ 1 ∷ 1 ∷ 1
    ∷ 9 ∷ 9 ∷ 9 ∷ 9 ∷ 9 ∷ 9 ∷ 9 ∷ 9 ∷ 9 ∷ 9 ∷ 9 ∷ 9 ∷ 9 ∷ 9 ∷ 9 ∷ 9 ∷ 7 ∷ 7 ∷ 7 ∷ 7 ∷ 7 ∷ 7 ∷ 7 ∷ 7
    ∷ 7 ∷ 7 ∷ 7 ∷ 7 ∷ 7 ∷ 7 ∷ 7 ∷ 7 ∷ 7 ∷ 7 ∷ 7 ∷ 7 ∷ 7 ∷ 7 ∷ 7 ∷ 7 ∷ 7 ∷ 7 ∷ 7 ∷ 7 ∷ 7 ∷ 7 ∷ 7 ∷ 7
    ∷ 8 ∷ 8 ∷ 2 ∷ 2 ∷ 2 ∷ 2 ∷ 2 ∷ 2 ∷ 2 ∷ 2 ∷ 2 ∷ 2 ∷ 2 ∷ 2 ∷ 2 ∷ 2 ∷ 2 ∷ 2 ∷ 2 ∷ 2 ∷ 2 ∷ 2 ∷ 2 ∷ 2
    ∷ 2 ∷ 2 ∷ 2 ∷ 2 ∷ 2 ∷ 2 ∷ 2 ∷ 2 ∷ 10 ∷ 3 ∷ 3 ∷ 3 ∷ 3 ∷ 3 ∷ 3 ∷ 3 ∷ 3 ∷ 3 ∷ 3 ∷ 3 ∷ 3 ∷ 4 ∷ 3 ∷ 3
    ∷ 11 ∷ 6 ∷ 6 ∷ 6 ∷ 5 ∷ 8 ∷ 8 ∷ 8 ∷ 8 ∷ 8 ∷ 8 ∷ 8 ∷ 8 ∷ 8 ∷ 8 ∷ 8 ∷ 0 ∷ 12 ∷ 24 ∷ 36 ∷ 60 ∷ 96
    ∷ 84 ∷ 12 ∷ 12 ∷ 12 ∷ 48 ∷ 72 ∷ 12 ∷ 12 ∷ 12 ∷ 12 ∷ 12 ∷ 12 ∷ 12 ∷ 12 ∷ 12 ∷ 12 ∷ 12 ∷ 12 ∷ 12
    ∷ 0 ∷ 12 ∷ 12 ∷ 12 ∷ 12 ∷ 12 ∷ 0 ∷ 12 ∷ 0 ∷ 12 ∷ 12 ∷ 12 ∷ 24 ∷ 12 ∷ 12 ∷ 12 ∷ 12 ∷ 12 ∷ 24 ∷ 12
    ∷ 24 ∷ 12 ∷ 12 ∷ 12 ∷ 12 ∷ 12 ∷ 12 ∷ 12 ∷ 12 ∷ 12 ∷ 24 ∷ 12 ∷ 12 ∷ 12 ∷ 12 ∷ 12 ∷ 24 ∷ 12 ∷ 12
    ∷ 12 ∷ 12 ∷ 12 ∷ 12 ∷ 12 ∷ 24 ∷ 12 ∷ 12 ∷ 12 ∷ 12 ∷ 12 ∷ 12 ∷ 12 ∷ 12 ∷ 12 ∷ 36 ∷ 12 ∷ 36 ∷ 12
    ∷ 12 ∷ 12 ∷ 36 ∷ 12 ∷ 12 ∷ 12 ∷ 12 ∷ 12 ∷ 36 ∷ 12 ∷ 36 ∷ 12 ∷ 12 ∷ 12 ∷ 36 ∷ 12 ∷ 12 ∷ 12 ∷ 12
    ∷ 12 ∷ 12 ∷ 12 ∷ 12 ∷ 12 ∷ 12 ∷ []

abbrev pub utf8_accept : ℕ
utf8_accept = 0

abbrev pub utf8_reject : ℕ
utf8_reject = 12

unfoldable pub class_of : ℕ → ℕ
unfolding utf8d
class_of byte = get_or utf8d byte 0

-- `utf8d[256 + state + type]`.
unfoldable pub transition : ℕ → ℕ → ℕ
unfolding utf8d
transition state type = get_or utf8d (256 + state + type) 0

-- One round of the loops: the state behind a byte.
unfoldable pub next_state : ℕ → ℕ → ℕ
unfolding class_of transition
next_state state byte = transition state (class_of byte)

-- `while (str < end && *str < 0x80) str++;`
unfoldable pub skip_ascii : List ℕ → List ℕ
skip_ascii [] = []
skip_ascii (b ∷ bs) = elim (ltb b 0x80) [ true ↦ skip_ascii bs | false ↦ b ∷ bs ]

-- The second loop.
unfoldable pub run : ℕ → List ℕ → ℕ
run state [] = state
run state (b ∷ bs) = run (next_state state b) bs

unfoldable pub is_utf8 : List ℕ → Bool
unfolding skip_ascii run next_state
is_utf8 str = run utf8_accept (skip_ascii str) == utf8_accept

abbrev pub invalid_char : ℕ
invalid_char = 0xffff_ffff

-- The loop of `cbor_next_utf8` from `ptr` on; `str` is where `*str` stays if no character is read.
-- The result is the code point and the new `*str`.
unfoldable pub next_loop : List ℕ → List ℕ → ℕ → ℕ → ℕ × List ℕ
next_loop str [] state codepoint = (invalid_char, str)
next_loop str (byte ∷ ptr) state codepoint =
    let codepoint' =
      if state == utf8_accept
      then bit_and (0xff / 2 ^ class_of byte) byte
      else (bit_and byte 0x3f + codepoint * 2 ^ 6) % 2 ^ 32 in
    let state' = next_state state byte in
    let more = next_loop str ptr state' codepoint' in
    if state' == utf8_reject
    then (invalid_char, str)
    else if state' == utf8_accept
    then (codepoint', ptr)
    else more

unfoldable pub next_utf8 : List ℕ → ℕ × List ℕ
next_utf8 [] = next_loop [] [] utf8_accept 0
next_utf8 (b ∷ bs) = if ltb b 0x80 then (b, bs) else next_loop (b ∷ bs) (b ∷ bs) utf8_accept b
