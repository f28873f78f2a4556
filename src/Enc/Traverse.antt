-- ===== src/Enc/Traverse.antt =====
-- src/encode.c: objects that give their own values: `Cbor\Serializable`, `Traversable`, dates, URIs
-- and GMP numbers.
use php_ext_cbor.Base.{
  ℕ, zero, suc, ◌+◌, ◌-◌, Bool, true, false, ◌&&◌, Option, none, some, List, [], ◌∷◌, ◌++◌, ltb,
  leb, ◌==◌, if◌then◌else◌, length, take, drop, get_or,
}
use php_ext_cbor.Base.Int.{ℤ, pos, negsuc}
use php_ext_cbor.Codec.{
  internal, exception, recursion, unsupported_size, extraneous_data, truncated_data, duplicate_key,
  tag_type, has_flag,
}
use php_ext_cbor.Codec.Flag
use php_ext_cbor.Codec.Tag
use php_ext_cbor.Di.{DiType}
use php_ext_cbor.Di.Encoder.{write_int, write_indef, write_break}
use php_ext_cbor.Zv.{Zval}
use php_ext_cbor.Zv.Table.{same_text}
use php_ext_cbor.Enc.{
  EncCtx, EncEngine, Status, good, failed, no_fuel, Call, Step, Iterator, Place, place_in, Bucket,
  ◌>>=◌, wrote,
}
use php_ext_cbor.Enc.Scalars.{enc_bin_int, enc_tag_bare}
use php_ext_cbor.Enc.Strings.{enc_string}
use php_ext_cbor.Enc.Hash.{protect, unprotect, enc_cde_map}

-- The text of a date: "2001-02-03T04:05:06.000007+08:09", 32 bytes.
-- The scan for the end of the fraction: `i` goes down from 25 while there are zeros.
unfoldable pub fraction_end : ℕ → List ℕ → ℕ
fraction_end zero s = 0
fraction_end (suc i) s = elim (get_or s (suc i) 0 == b'0') [
  | true ↦ fraction_end i s
  | false ↦ if get_or s (suc i) 0 == b'.' then suc i else suc i + 1
]

-- "+00:00" at the end becomes "Z".
abbrev utc_offset : List ℕ
utc_offset = b'+' ∷ b'0' ∷ b'0' ∷ b':' ∷ b'0' ∷ b'0' ∷ []

unfoldable pub utc_suffix : List ℕ → List ℕ
unfolding same_text
utc_suffix s =
    if same_text (drop (length s - 6) s) utc_offset then take (length s - 6) s ++ b'Z' ∷ [] else s

unfoldable pub trim_date : List ℕ → List ℕ
unfolding fraction_end utc_suffix
trim_date s =
    let i = fraction_end 25 s in utc_suffix (if ltb i 26 then take i s ++ drop 26 s else s)

unfoldable pub enc_datetime : EncCtx → Option (List ℕ) → EncCtx × Status
unfolding trim_date enc_string enc_tag_bare
enc_datetime ctx (some s) =
    if length s == 32
    then enc_string (record ctx { buf = enc_tag_bare ctx.buf Tag.datetime }) (trim_date s) true
    else (ctx, failed internal)
enc_datetime ctx none = (ctx, failed internal)

unfoldable pub enc_uri : EncCtx → Call (Option (List ℕ)) → EncCtx × Status
unfolding enc_string enc_tag_bare
enc_uri ctx (Call.returns (some s)) =
    enc_string (record ctx { buf = enc_tag_bare ctx.buf Tag.uri }) s true
enc_uri ctx (Call.returns none) = (ctx, failed tag_type)
enc_uri ctx _ = (ctx, failed exception)

-- The bytes of a number that is -1 - n, or n.
unfoldable pub enc_big : EncCtx → List ℕ → Bool → EncCtx × Status
unfolding enc_bin_int enc_string enc_tag_bare
enc_big ctx str is_negative =
    if leb (length str) 8
    then wrote ctx (enc_bin_int ctx.buf str is_negative)
    else enc_string
        (record ctx {
          buf = enc_tag_bare ctx.buf (if is_negative then Tag.bignum_n else Tag.bignum_u);
        })
        str false

-- `gmp_com` of a negative number n is -1 - n.
unfoldable pub enc_bignum : EncEngine → EncCtx → ℤ → EncCtx × Status
unfolding enc_big
enc_bignum engine ctx (pos n) = enc_big ctx (engine.gmp_export n) false
enc_bignum engine ctx (negsuc n) = enc_big ctx (engine.gmp_export n) true

-- The keys of the table that are there already.
unfoldable pub has_key : List ℕ → List Bucket → Bool
unfolding same_text
has_key s [] = false
has_key s ((t, v) ∷ ht) = if same_text t s then true else has_key s ht

-- The loop's variables: the table of keys, if there is one, and the number of pairs read.
pub record Round : Type 0 where
  pub keys_ht : Option (List Bucket)
  pub index : ℕ

-- A key in a buffer of its own, and what is done with its bytes.
unfoldable pub add_key : List ℕ → List Bucket → EncCtx × Status → (EncCtx × Status) × List ℕ
unfolding has_key
add_key out_buf ht (ctx, good) =
    if has_key ctx.buf ht then ((record ctx { buf = out_buf }, failed duplicate_key), []) else (
      (
        record ctx {
          buf = if has_flag ctx.args.e_flags Flag.cde then out_buf else out_buf ++ ctx.buf;
        },
        good,
      ),
      ctx.buf,
    )
add_key out_buf ht (ctx, s) = ((record ctx { buf = out_buf }, s), [])

-- The end of a map whose number of pairs is known, or not.
abbrev pub end_counted : Option ℕ → EncCtx → ℕ → EncCtx × Status
end_counted none ctx i = wrote ctx (write_break ctx.buf)
end_counted (some n) ctx i = if i == n then (ctx, good) else (ctx, failed truncated_data)

abbrev pub past_end : Option ℕ → ℕ → Bool
past_end none i = false
past_end (some n) i = i == n

-- The value of the last bucket.
abbrev pub set_last_value : Zval → List Bucket → List Bucket
set_last_value v [] = []
set_last_value v ((k, w) ∷ []) = (k, v) ∷ []
set_last_value v (b ∷ c ∷ ht) = b ∷ set_last_value v (c ∷ ht)

-- The number of pairs, where it is asked for.
abbrev pub checked_count : ℕ → Call ℤ → Status × ℕ
checked_count count_max Call.not_called = (failed internal, 0)
checked_count count_max Call.raises = (failed exception, 0)
checked_count count_max (Call.returns (negsuc n)) = (failed internal, 0)
checked_count count_max (Call.returns (pos n)) =
    if ltb count_max n then (failed unsupported_size, n) else (good, n)

abbrev pub keys_from : EncCtx → Bool → Option (List Bucket)
keys_from ctx some_pairs =
    if some_pairs && has_flag ctx.args.e_flags Flag.map_no_dup_key then some [] else none

abbrev pub start_round : EncCtx → Bool → Round
start_round ctx some_pairs = record { keys_ht = keys_from ctx some_pairs; index = 0 }

module _ (enc : EncCtx → Zval → EncCtx × Status) where
  unfoldable pub enc_serializable : EncCtx → Place → Call Zval → EncCtx × Status
  unfolding place_in
  enc_serializable ctx place result =
      if place_in place ctx.protected then (ctx, failed recursion) else elim result [
        | Call.not_called ↦ (ctx, failed internal)
        | Call.raises ↦ (ctx, failed exception)
        | Call.returns v ↦ unprotect (some place) (enc (protect (some place) ctx) v)
      ]

  -- With CBOR_CDE there is always a table: `check_encode_params` sets CBOR_MAP_NO_DUP_KEY.
  unfoldable pub finish_traversal : EncEngine → Option ℕ → EncCtx → Round → EncCtx × Status
  unfolding enc_cde_map write_break
  finish_traversal engine count ctx round = elim round.keys_ht [
    | none ↦ end_counted count ctx round.index
    | some ht ↦
        if has_flag ctx.args.e_flags Flag.cde
        then enc_cde_map enc engine ctx ht
        else end_counted count ctx round.index
  ]

  -- A key: with a table it must be new to it.
  unfoldable pub traverse_key : EncCtx → Round → Zval → (EncCtx × Status) × Round
  unfolding add_key
  traverse_key ctx round key = elim round.keys_ht [
    | none ↦ (enc ctx key, record round { index = round.index + 1 })
    | some ht ↦
        let (r, key_cbor) = add_key ctx.buf ht (enc (record ctx { buf = [] }) key) in
        (r, record { keys_ht = some (ht ++ (key_cbor, Zval.undef) ∷ []); index = round.index + 1 })
  ]

  -- A value is written, or with CBOR_CDE kept for the table.
  unfoldable pub traverse_value : EncCtx → Round → Zval → (EncCtx × Status) × Round
  traverse_value ctx round value = elim round.keys_ht [
    | none ↦ (enc ctx value, round)
    | some ht ↦
        if has_flag ctx.args.e_flags Flag.cde
        then ((ctx, good), record round { keys_ht = some (set_last_value value ht) })
        else (enc ctx value, round)
  ]

  -- A round of the loop; `more` is the rest of it, after `move_forward`.
  unfoldable pub one_round :
      EncEngine
      → Option ℕ
      → (EncCtx → Round → EncCtx × Status)
      → EncCtx
      → Round
      → Step
      → EncCtx × Status
  unfolding finish_traversal traverse_key traverse_value
  one_round engine count more ctx round Step.done = finish_traversal engine count ctx round
  one_round engine count more ctx round Step.raised = (ctx, failed exception)
  one_round engine count more ctx round Step.key_raised =
      (ctx, if past_end count round.index then failed extraneous_data else failed exception)
  one_round engine count more ctx round (Step.value_raised key) =
      if past_end count round.index
      then (ctx, failed extraneous_data)
      else ((traverse_key ctx round key).0 >>= λ ctx. (ctx, failed exception))
  one_round engine count more ctx round (Step.item key value) =
      let (r, with_key) = traverse_key ctx round key in
      let next = r >>= λ ctx.
      let (r, with_value) = traverse_value ctx with_key value in r >>= λ ctx. more ctx with_value in
      if past_end count round.index then (ctx, failed extraneous_data) else next

  -- The loop from a position of the iterator on; an iterator that does not end uses up the fuel.
  unfoldable pub traverse :
      EncEngine → Option ℕ → ℕ → Iterator → ℕ → EncCtx → Round → EncCtx × Status
  unfolding one_round
  traverse engine count zero it i ctx round = (ctx, no_fuel)
  traverse engine count (suc fuel) it i ctx round =
      one_round engine count (λ ctx round. traverse engine count fuel it (i + 1) ctx round) ctx
        round (it i)

  -- The head of the map by the count, and the loop.
  unfoldable pub traverse_all : EncEngine → EncCtx → Option (Call ℤ) → Iterator → EncCtx × Status
  unfolding traverse write_indef write_int
  traverse_all engine ctx none it =
      traverse engine none engine.rounds it 0
        (if has_flag ctx.args.e_flags Flag.cde
          then ctx
          else record ctx { buf = write_indef ctx.buf DiType.map })
        (start_round ctx true)
  traverse_all engine ctx (some call) it =
      let (s, count) = checked_count engine.count_max call in
      if has_flag ctx.args.e_flags Flag.cde
      then traverse engine none engine.rounds it 0 ctx (start_round ctx true)
      else ((ctx, s) >>= λ ctx.
          traverse engine (some count) engine.rounds it 0
            (record ctx { buf = write_int ctx.buf DiType.map count })
            (start_round ctx (ltb 0 count)))

  unfoldable pub enc_traversable :
      EncEngine → EncCtx → Place → Option (Call ℤ) → Iterator → EncCtx × Status
  unfolding traverse_all place_in
  enc_traversable engine ctx place countable it =
      if place_in place ctx.protected
      then (ctx, failed recursion)
      else unprotect (some place) (traverse_all engine (protect (some place) ctx) countable it)
