-- ===== src/Utf8/Encoding.antt =====
-- What src/utf8.c is to recognise: the encoding of the Unicode scalar values (RFC 3629), written
-- without the automaton.
use php_ext_cbor.Base.{ℕ, ◌+◌, ◌/◌, ◌%◌, ◌≤◌, ◌<◌, ◌⊎◌, List, [], ◌∷◌, ◌++◌, ltb, if◌then◌else◌}

-- A code point that is no surrogate.
abbrev pub IsScalar : ℕ → Type 0
IsScalar cp = (cp < 0xd800) ⊎ ((0xe000 ≤ cp) × (cp < 0x11_0000))

-- A byte 10xxxxxx with the six bits of `cp` from bit `s` on, where `d` is 2 to the power `s`.
abbrev pub tail_byte : ℕ → ℕ → ℕ
tail_byte cp d = 0x80 + cp / d % 64

unfoldable pub encode_char : ℕ → List ℕ
encode_char cp =
    if ltb cp 0x80
    then cp ∷ []
    else if ltb cp 0x800
    then (0xc0 + cp / 64) ∷ tail_byte cp 1 ∷ []
    else if ltb cp 0x1_0000
    then (0xe0 + cp / 4096) ∷ tail_byte cp 64 ∷ tail_byte cp 1 ∷ []
    else (0xf0 + cp / 262144) ∷ tail_byte cp 4096 ∷ tail_byte cp 64 ∷ tail_byte cp 1 ∷ []

unfoldable pub encode_text : List ℕ → List ℕ
encode_text [] = []
encode_text (cp ∷ cps) = encode_char cp ++ encode_text cps

abbrev pub AllScalar : List ℕ → Type 0
AllScalar [] = Unit
AllScalar (cp ∷ cps) = IsScalar cp × AllScalar cps
