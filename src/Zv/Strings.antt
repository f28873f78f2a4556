-- ===== src/Zv/Strings.antt =====
-- src/decode_zv.h, the tags 256 and 25: an index gives back the string that was numbered with it.
use php_ext_cbor.Base.{
  ℕ, zero, suc, ◌≡◌, refl, true, if◌then◌else◌, if-elim, Option, none, some, ap, ◌∙◌, List, [], ◌∷◌,
  ◌++◌, length, get_elem?,
}
use php_ext_cbor.Base.Int.{pos, negsuc}
use php_ext_cbor.Codec.{CborError, internal, str_ref_range, str_ref_not_int, is_len_string_ref}
use php_ext_cbor.Zv.{Zval, long, string, object, Object, ZvCtx}
use php_ext_cbor.Zv.Tags.{
  set_u, str_ref_ns_data, str_ref_exit, copy_string, top_table, add_string, string_length,
  text_length,
}
use php_ext_cbor.Zv.Table.{new_object, object_at}
use php_ext_cbor.Decode.{set_error}

pub get_elem?-last : (xs : List Zval) (x : Zval) → get_elem? (xs ++ x ∷ []) (length xs) ≡ some x
get_elem?-last [] x = refl
get_elem?-last (y ∷ ys) x = get_elem?-last ys x

module _ (s : List ℕ) (ctx : ZvCtx) (t : List Zval) (ts : List (List Zval))
    (e : ctx.u.srns ≡ t ∷ ts) where
  pub noted :
      is_len_string_ref (length s) (length t) ≡ true
      → str_ref_ns_data (string s) ctx
        ≡ set_u (record (ctx.u) { srns = (t ++ string s ∷ []) ∷ ts }) ctx
  unfolding str_ref_ns_data
  noted y = rw (str_ref_ns_data, e, y) refl

get_elem?-front :
    {A : Type 0} (xs ys : List A) (i : ℕ) {x : A}
    → get_elem? xs i ≡ some x
    → get_elem? (xs ++ ys) i ≡ some x
get_elem?-front [] ys i h = absurd (cc h)
get_elem?-front (y ∷ xs) ys zero h = h
get_elem?-front (y ∷ xs) ys (suc i) h = get_elem?-front xs ys i h

-- What may happen in a namespace after a moment: more strings and objects of strings come up, and
-- references are read.
pub data After (start : ZvCtx) : ZvCtx → Type 0 where
  at_once : After start start
  string_noted : {c : ZvCtx} (v : Zval) → After start c → After start (str_ref_ns_data v c)
  reference_read : {c : ZvCtx} (v : Zval) → After start c → After start (str_ref_exit v c).1

-- A value has its place in the namespace's table, and an object its handle.
abbrev pub InTable : ℕ → Zval → ZvCtx → Type 0
InTable i v c = get_elem? (top_table c.u.srns) i ≡ some v

abbrev pub InHeap : ℕ → Object → ZvCtx → Type 0
InHeap k o c = get_elem? c.u.objects k ≡ some o

in_longer :
    (srns : List (List Zval)) (i : ℕ) (v w : Zval)
    → get_elem? (top_table srns) i ≡ some v
    → get_elem? (top_table (add_string w srns)) i ≡ some v
in_longer [] i v w h = h
in_longer (t ∷ ts) i v w h = get_elem?-front t (w ∷ []) i h

-- A property that an error, a new string and a new object of the state do not touch is kept.
module _ (P : ZvCtx → Type 0) (fails : (e : CborError) (c : ZvCtx) → P c → P (set_error e c))
    (adds : (w : Zval) (c : ZvCtx)
      → P c
      → P (set_u (record (c.u) { srns = add_string w c.u.srns }) c))
    (copies : (o : Object) (c : ZvCtx) → P c → P (set_u (new_object o c.u).1 c)) where
  noted_keeps : (w : Zval) (c : ZvCtx) → P c → P (str_ref_ns_data w c)
  unfolding str_ref_ns_data
  noted_keeps w c p = by_length (string_length c.u w)
    where
      by_length :
          (o : Option ℕ)
          → P (elim o [
            | none ↦ set_error internal c
            | some n ↦
                if is_len_string_ref n (length (top_table c.u.srns))
                then set_u (record (c.u) { srns = add_string w c.u.srns }) c
                else c
          ])
      by_length none = fails internal c p
      by_length (some n) =
          if-elim P (is_len_string_ref n (length (top_table c.u.srns))) (adds w c p) p

  copied_keeps : (w : Zval) (c : ZvCtx) → P c → P (copy_string w c).1
  unfolding copy_string
  copied_keeps (object h) c p = by_object (object_at h c.u)
    where
      by_object :
          (o : Option Object)
          → P (
              (elim o as (λ _. Zval × ZvCtx) [
                | none ↦ (object h, c)
                | some o ↦ let (v, s) = new_object o c.u in (v, set_u s c)
              ]).1)
      by_object none = p
      by_object (some o) = copies o c p
  copied_keeps w c p = p

  read_keeps : (w : Zval) (c : ZvCtx) → P c → P (str_ref_exit w c).1
  unfolding str_ref_exit
  read_keeps (long (pos i)) c p = by_place (get_elem? (top_table c.u.srns) i)
    where
      by_place :
          (o : Option Zval)
          → P (
              (elim o as (λ _. Zval × ZvCtx) [
                | none ↦ (long (pos i), set_error str_ref_range c)
                | some s ↦ copy_string s c
              ]).1)
      by_place none = fails str_ref_range c p
      by_place (some s) = copied_keeps s c p
  read_keeps (long (negsuc i)) c p = fails str_ref_range c p
  read_keeps w c p = fails str_ref_not_int c p

  after_keeps : {c d : ZvCtx} → After c d → P c → P d
  after_keeps at_once p = p
  after_keeps (string_noted {c = c} v a) p = noted_keeps v c (after_keeps a p)
  after_keeps (reference_read {c = c} v a) p = read_keeps v c (after_keeps a p)

InTable-After : (i : ℕ) (v : Zval) {c d : ZvCtx} → After c d → InTable i v c → InTable i v d
unfolding set_error new_object
InTable-After i v =
    after_keeps (InTable i v) (λ e c p. p) (λ w c p. in_longer c.u.srns i v w p) (λ o c p. p)

InHeap-After : (k : ℕ) (o : Object) {c d : ZvCtx} → After c d → InHeap k o c → InHeap k o d
unfolding set_error new_object
InHeap-After k o =
    after_keeps (InHeap k o) (λ e c p. p) (λ w c p. p)
      (λ x c p. get_elem?-front c.u.objects (x ∷ []) k p)

numbered :
    (v : Zval) (n : ℕ) (ctx : ZvCtx) (t : List Zval) (ts : List (List Zval))
    → ctx.u.srns ≡ t ∷ ts
    → string_length ctx.u v ≡ some n
    → is_len_string_ref n (length t) ≡ true
    → InTable (length t) v (str_ref_ns_data v ctx)
unfolding str_ref_ns_data
numbered v n ctx t ts e l y = rw (str_ref_ns_data, l, e, y) (get_elem?-last t v)

read_back :
    (i : ℕ) (v : Zval) (d : ZvCtx) → InTable i v d → str_ref_exit (long (pos i)) d ≡ copy_string v d
unfolding str_ref_exit
read_back i v d h = rw (str_ref_exit, h) refl

copied :
    (h : ℕ) (o : Object) (d : ZvCtx)
    → InHeap h o d
    → copy_string (object h) d
      ≡ (object (length d.u.objects), set_u (record (d.u) { objects = d.u.objects ++ o ∷ [] }) d)
unfolding copy_string object_at new_object
copied h o d e = rw (copy_string, e) refl

module _ (ctx : ZvCtx) (t : List Zval) (ts : List (List Zval)) (e : ctx.u.srns ≡ t ∷ ts) where
  -- A PHP string that comes up in a namespace and is long enough for the next index of its table is
  -- what a reference with that index gives from then on, whatever strings come up and whatever
  -- references are read in the namespace in between.
  pub str_ref_exit-str_ref_ns_data :
      (s : List ℕ) (d : ZvCtx)
      → is_len_string_ref (length s) (length t) ≡ true
      → After (str_ref_ns_data (string s) ctx) d
      → str_ref_exit (long (pos (length t))) d ≡ (string s, d)
  unfolding copy_string
  str_ref_exit-str_ref_ns_data s d y a =
      read_back (length t) (string s) d
        (InTable-After (length t) (string s) a (numbered (string s) (length s) ctx t ts e refl y))

  -- An object of a byte string or a text that comes up in a namespace and is long enough for the next
  -- index of its table is what a reference with that index copies from then on, whatever strings come
  -- up and whatever references are read in between: the reference gives a new object with the same
  -- content.
  pub str_ref_exit-object :
      (h n : ℕ) (o : Object) (d : ZvCtx)
      → object_at h ctx.u ≡ some o
      → text_length (some o) ≡ some n
      → is_len_string_ref n (length t) ≡ true
      → After (str_ref_ns_data (object h) ctx) d
      → str_ref_exit (long (pos (length t))) d
        ≡ (object (length d.u.objects), set_u (record (d.u) { objects = d.u.objects ++ o ∷ [] }) d)
  unfolding object_at
  str_ref_exit-object h n o d there l y a =
      read_back (length t) (object h) d (
        InTable-After (length t) (object h) a
          (numbered (object h) n ctx t ts e (ap text_length there ∙ l) y))
      ∙ copied h o d (InHeap-After h o a (InHeap-After h o (string_noted (object h) at_once) there))
