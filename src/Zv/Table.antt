-- ===== src/Zv/Table.antt =====
-- The operations of PHP's hash tables and of the heap that src/decode_zv.h calls.
use php_ext_cbor.Base.{
  ℕ, suc, ◌+◌, ◌&&◌, Bool, true, false, Option, none, some, List, [], ◌∷◌, ◌++◌, ◌==◌,
  if◌then◌else◌, length, get_elem?, set,
}
use php_ext_cbor.Zv.{
  Key, index, name, Zval, Entries, end, entry, Object, ZvState, object, reference,
}

unfoldable pub same_text : List ℕ → List ℕ → Bool
same_text [] [] = true
same_text (a ∷ s) (b ∷ t) = (a == b) && same_text s t
same_text _ _ = false

unfoldable pub same_key : Key → Key → Bool
unfolding same_text
same_key (index i) (index j) = i == j
same_key (name s) (name t) = same_text s t
same_key _ _ = false

unfoldable pub num_elements : Entries → ℕ
num_elements end = 0
num_elements (entry k v es) = suc (num_elements es)

unfoldable pub exists_key : Key → Entries → Bool
unfolding same_key
exists_key k end = false
exists_key k (entry j v es) = if same_key j k then true else exists_key k es

-- A new value for a key that is there; a new key goes to the end.
unfoldable pub update : Key → Zval → Entries → Entries
unfolding same_key
update k v end = entry k v end
update k v (entry j w es) = if same_key j k then entry j v es else entry j w (update k v es)

-- The value of a key.
unfoldable pub lookup : Key → Entries → Option Zval
unfolding same_key
lookup k end = none
lookup k (entry j v es) = if same_key j k then some v else lookup k es

-- `add_next_index_zval` on an array that was filled by it alone: the next index is the count.
unfoldable pub push_from : ℕ → Zval → Entries → Entries
push_from i v end = entry (index i) v end
push_from i v (entry j w es) = entry j w (push_from (i + 1) v es)

unfoldable pub push : Zval → Entries → Entries
unfolding push_from
push v es = push_from 0 v es

-- A new object with its handle, and an object's new contents.
unfoldable pub new_object : Object → ZvState → Zval × ZvState
new_object o s = (object (length s.objects), record s { objects = s.objects ++ o ∷ [] })

unfoldable pub set_object : ℕ → Object → ZvState → ZvState
set_object h o s = record s { objects = set s.objects h o }

unfoldable pub object_at : ℕ → ZvState → Option Object
object_at h s = get_elem? s.objects h

-- ZVAL_NEW_REF.
unfoldable pub new_reference : Zval → ZvState → Zval × ZvState
new_reference v s = (reference (length s.cells), record s { cells = s.cells ++ v ∷ [] })
