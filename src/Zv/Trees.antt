-- ===== src/Zv/Trees.antt =====
-- Data as a tree, without the decoder: how it is written with the functions of src/di_encoder.c, and
-- the PHP value that src/decode_zv.h is to build for it.
use php_ext_cbor.Base.{ℕ, suc, ◌+◌, ◌^◌, ◌<◌, ◌≤◌, Bool, List, [], ◌++◌, length}
use php_ext_cbor.Base.Int.{pos, negsuc}
use php_ext_cbor.Codec.{DecodeArgs}
use php_ext_cbor.Di.{IsU64}
use php_ext_cbor.Decode.Tokens.{Token, write_token}
use php_ext_cbor.Zv.{Zval, Entries, end}
use php_ext_cbor.Zv.Table.{push}

mutual
  pub data Tree : Type 0 where
    uint nint : ℕ → Tree
    bytes : List ℕ → Tree
    boolean : Bool → Tree
    null : Tree
    undefined : Tree
    float64 : ℕ → Tree
    array : Trees → Tree

  pub data Trees : Type 0 where
    nil : Trees
    cons : Tree → Trees → Trees

unfoldable pub count : Trees → ℕ
count nil = 0
count (cons t ts) = suc (count ts)

-- The token that a tree begins with.
unfoldable pub first_token : Tree → Token
unfolding count
first_token (uint n) = Token.uint n
first_token (nint n) = Token.nint n
first_token (bytes s) = Token.bytes s
first_token (boolean b) = Token.boolean b
first_token null = Token.null
first_token undefined = Token.undefined
first_token (float64 n) = Token.float64 n
first_token (array ts) = Token.array_of (count ts)

unfoldable mutual
  unfolding first_token write_token

  -- The tree in CBOR.
  pub write_tree : Tree → List ℕ
  write_tree (array ts) = write_token [] (first_token (array ts)) ++ write_trees ts
  write_tree t = write_token [] (first_token t)

  pub write_trees : Trees → List ℕ
  write_trees nil = []
  write_trees (cons t ts) = write_tree t ++ write_trees ts

unfoldable mutual
  -- The number of its tokens.
  pub size : Tree → ℕ
  size (array ts) = suc (sizes ts)
  size t = 1

  pub sizes : Trees → ℕ
  sizes nil = 0
  sizes (cons t ts) = size t + sizes ts

unfoldable mutual
  unfolding push

  -- The PHP value: an array has its elements in order, under the keys from 0 on.
  pub value_of : Tree → Zval
  value_of (uint n) = Zval.long (pos n)
  value_of (nint n) = Zval.long (negsuc n)
  value_of (bytes s) = Zval.string s
  value_of (boolean b) = Zval.boolean b
  value_of null = Zval.null
  value_of undefined = Zval.undefined
  value_of (float64 n) = Zval.double n
  value_of (array ts) = Zval.array (push_all ts end)

  -- The values behind the entries that are there.
  pub push_all : Trees → Entries → Entries
  push_all nil es = es
  push_all (cons t ts) es = push_all ts (push (value_of t) es)

abbrev mutual
  -- A tree that the arguments let pass where `depth` containers are open: the integers fit into PHP's,
  -- strings and floats are in range, and no array is too long or too deep.
  pub Allowed : DecodeArgs → ℕ → Tree → Type 0
  Allowed a depth (uint n) = n < 2 ^ 63
  Allowed a depth (nint n) = n < 2 ^ 63
  Allowed a depth (bytes s) = IsU64 (length s + 9)
  Allowed a depth (float64 n) = IsU64 n
  Allowed a depth (array nil) = Unit
  Allowed a depth (array (cons t ts)) =
      (depth < a.max_depth)
      × (count (cons t ts) ≤ a.max_size)
      × (count (cons t ts) < 2 ^ 32)
      × AllAllowed a (depth + 1) (cons t ts)
  Allowed a depth _ = Unit

  pub AllAllowed : DecodeArgs → ℕ → Trees → Type 0
  AllAllowed a depth nil = Unit
  AllAllowed a depth (cons t ts) = Allowed a depth t × AllAllowed a depth ts
