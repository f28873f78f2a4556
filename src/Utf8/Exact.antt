-- ===== src/Utf8/Exact.antt =====
-- src/utf8.c, `cbor_is_utf8`: it accepts exactly the encodings of scalar values.
use php_ext_cbor.Base.{
  ℕ, zero, suc, ◌≤◌, ◌<◌, ◌≡◌, ◌↔◌, refl, sym, ap, ◌∙◌, true, List, [], ◌∷◌, ◌++◌, ==_iff, length,
  arith, length-append,
}
use php_ext_cbor.Utf8.{run, is_utf8}
use php_ext_cbor.Utf8.Encoding.{IsScalar, encode_char, encode_text, AllScalar}
use php_ext_cbor.Utf8.Valid.{AllBytes, run-encode_text, run-skip_ascii}
use php_ext_cbor.Utf8.Inversion.{accepted-Begins}

-- The text is the encoding of some scalar values.
abbrev pub IsEncoded : List ℕ → Type 0
IsEncoded bs = (cps : List ℕ) × AllScalar cps × (bs ≡ encode_text cps)

length-encode_char_pos : (cp : ℕ) → 0 < length (encode_char cp)
unfolding encode_char
length-encode_char_pos cp = ground arith

-- An encoding behind the encoding of one scalar value.
prepend :
    {bs r : List ℕ} {cp : ℕ} → IsScalar cp → bs ≡ encode_char cp ++ r → IsEncoded r → IsEncoded bs
unfolding encode_text
prepend {cp = cp} hc p (cps, h, q) = (cp ∷ cps, (hc, h), rw (p, q))

accepted-IsEncoded :
    (n : ℕ) (bs : List ℕ) → length bs ≤ n → AllBytes bs → run 0 bs ≡ 0 → IsEncoded bs
unfolding encode_text
accepted-IsEncoded n [] hn h e = ([], tt, refl)
accepted-IsEncoded zero (a ∷ bs) hn h e = absurd (omega arith)
accepted-IsEncoded (suc n) (a ∷ bs) hn h e =
    let (cp, r, hc, p, hr, q) = accepted-Begins a bs h e in
    prepend hc p (
      accepted-IsEncoded n r
        (omega (arith, ap length p, length-append (encode_char cp) r, length-encode_char_pos cp)) hr
        q)

-- A text of bytes is accepted exactly when it is the UTF-8 encoding of Unicode scalar values.
pub is_utf8-exact : (bs : List ℕ) → AllBytes bs → (is_utf8 bs ≡ true) ↔ IsEncoded bs
is_utf8-exact bs h = (sound, complete)
  where
    sound : is_utf8 bs ≡ true → IsEncoded bs
    sound e =
        accepted-IsEncoded (length bs) bs (omega arith) h
          (sym (run-skip_ascii bs) ∙ (==_iff _ 0).0 (unfold is_utf8 in e))

    complete : IsEncoded bs → is_utf8 bs ≡ true
    complete (cps, hc, p) =
        unfold is_utf8 in ((==_iff _ 0).1 (run-skip_ascii bs ∙ rw p (run-encode_text cps hc)))
