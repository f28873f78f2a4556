-- ===== src/Zv/Share.antt =====
-- src/decode_zv.h: the handlers of the tags 28 (shareable) and 29 (shared reference), and the calls
-- of the handlers through the table.
use php_ext_cbor.Base.{
  ℕ, Bool, true, false, ◌&&◌, ◌||◌, not, Option, none, some, List, [], ◌∷◌, ◌++◌, ◌==◌,
  if◌then◌else◌, length, get_elem?, set,
}
use php_ext_cbor.Base.Int.{pos, negsuc}
use php_ext_cbor.Codec.{
  int_range, share_incompatible, share_self, share_nested, share_not_int, share_range,
}
use php_ext_cbor.Codec.Opt
use php_ext_cbor.Codec.Tag
use php_ext_cbor.Decode.{set_error}
use php_ext_cbor.Zv.{
  Zval, null, undef, boolean, long, object, reference, Object, shareable, std_class, Thi, name,
  SiValue, map, tag_handled, tag_shareable, ZvItem, ZvState, ZvCtx, ZvStackItem,
}
use php_ext_cbor.Zv.Table.{new_object, set_object, object_at, new_reference, update}
use php_ext_cbor.Zv.Tags.{
  is_xxint, is_object, set_u, set_child_handler, set_ref, str_ref_ns_child, str_ref_ns_enter,
  str_ref_ns_exit, str_ref_enter, str_ref_exit,
}

-- `shared_ref` is OPT_SHAREABLE or OPT_SHAREABLE_ONLY.
abbrev pub wraps_shared : ZvCtx → Bool
wraps_shared ctx =
    (ctx.args.shared_ref == Opt.shareable) || (ctx.args.shared_ref == Opt.shareable_only)

abbrev pub unsafe_refs : ZvCtx → Bool
unsafe_refs ctx = ctx.args.shared_ref == Opt.unsafe_ref

-- What stands for the shared value while a child is being read: the child's `stdClass`, a new
-- `Shareable`, or a new reference. `none` is the error.
unfoldable pub shared_place : SiValue → ZvCtx → Option Zval × ZvState
shared_place (map (object h) key n) ctx = (some (object h), ctx.u)
shared_place _ ctx =
    if wraps_shared ctx
    then (let (v, s) = new_object (shareable (boolean true)) ctx.u in (some v, s))
    else if unsafe_refs ctx
    then (let (v, s) = new_reference undef ctx.u in (some v, s))
    else (none, ctx.u)

-- `tag_handler_shareable_child`: `self` is the item of the tag.
unfoldable pub shareable_child : ZvCtx → ZvStackItem → ZvStackItem → ZvCtx × ZvStackItem
unfolding shared_place
shareable_child ctx item self =
    let (place, s) = shared_place item.ext.v ctx in
    elim place [
      | none ↦ (set_error share_incompatible ctx, self)
      | some v ↦ elim self.ext.v [
        | tag_shareable id thi w i ↦ (
          set_u (set_ref i v s) ctx,
          record self { ext = record (self.ext) { v = tag_shareable id thi v i } },
        )
        | _ ↦ (ctx, self)
      ]
    ]

abbrev pub is_reference : Zval → Bool
is_reference (reference h) = true
is_reference _ = false

-- `tag_handler_shareable_exit` where no child was pushed.
unfoldable pub share_scalar : Zval → ℕ → ZvCtx → Zval × ZvCtx
share_scalar v i ctx =
    let keeps = is_object v && not (ctx.args.shared_ref == Opt.shareable_only) in
    let (r, s) = new_reference v ctx.u in
    let (o, s') = new_object (shareable v) ctx.u in
    if is_object v && (keeps || unsafe_refs ctx)
    then (v, set_u (set_ref i v ctx.u) ctx)
    else if unsafe_refs ctx
    then if is_reference v
      then (v, set_u (set_ref i v ctx.u) ctx)
      else (r, set_u (set_ref i r s) ctx)
    else if wraps_shared ctx
    then (o, set_u (set_ref i o s') ctx)
    else (v, set_error share_incompatible ctx)

-- `zend_update_property_ex` of the property `value`.
abbrev pub value_name : List ℕ
value_name = b'v' ∷ b'a' ∷ b'l' ∷ b'u' ∷ b'e' ∷ []

abbrev pub update_value : Zval → Option Object → Option Object
update_value v (some (shareable w)) = some (shareable v)
update_value v (some (std_class es)) = some (std_class (update (name value_name) v es))
update_value v o = o

unfoldable pub update_value_property : Zval → Zval → ZvState → ZvState
update_value_property (object h) v s = elim (update_value v (object_at h s)) [
  | none ↦ s
  | some o ↦ set_object h o s
]
update_value_property _ v s = s

-- The same place: a reference that would hold itself.
abbrev pub same_reference : Zval → Zval → Bool
same_reference (reference h) (reference k) = h == k
same_reference _ _ = false

-- The value moves into the reference; into any other place it is copied.
unfoldable pub fill_reference : Zval → Zval → ZvCtx → Zval × ZvCtx
fill_reference (reference h) v ctx =
    (reference h, set_u (record (ctx.u) { cells = set ctx.u.cells h v }) ctx)
fill_reference _ v ctx = (v, ctx)

-- `tag_handler_shareable_exit` where a child was pushed and `place` stands for the value.
unfoldable pub share_container : Zval → Zval → ZvCtx → Zval × ZvCtx
unfolding update_value_property fill_reference
share_container place v ctx =
    if wraps_shared ctx
    then (place, set_u (update_value_property place v ctx.u) ctx)
    else if unsafe_refs ctx
    then if same_reference place v
      then (v, set_error share_self ctx)
      else fill_reference place v ctx
    else (place, ctx)

unfoldable pub shareable_exit : Zval → SiValue → ZvCtx → Zval × ZvCtx
unfolding share_scalar share_container
shareable_exit v (tag_shareable id thi place i) ctx =
    if is_xxint v
    then (v, set_error int_range ctx)
    else elim place [ null ↦ share_scalar v i ctx | w ↦ share_container w v ctx ]
shareable_exit v _ ctx = (v, ctx)

-- `stack_top` is the item of a tag 28.
abbrev pub is_shareable_tag : SiValue → Bool
is_shareable_tag (tag_handled id thi) = id == Tag.shareable
is_shareable_tag (tag_shareable id thi v i) = id == Tag.shareable
is_shareable_tag _ = false

abbrev pub in_shareable : List ZvStackItem → Bool
in_shareable [] = false
in_shareable (item ∷ rest) = is_shareable_tag item.ext.v

-- `tag_handler_shareable_enter`: a place in `refs` is taken, filled with null for now.
unfoldable pub shareable_enter : ZvCtx → ZvItem → Bool × ZvCtx × ZvItem
unfolding set_child_handler
shareable_enter ctx item =
    let (ctx', item') = set_child_handler Thi.shareable ctx item in
    let i = length ctx'.u.refs in
    if in_shareable ctx.stack then (false, set_error share_nested ctx, item) else (
      true,
      set_u (record (ctx'.u) { refs = ctx'.u.refs ++ null ∷ [] }) ctx',
      record item' { v = tag_shareable Tag.shareable Thi.shareable null i },
    )

unfoldable pub shared_ref_exit : Zval → ZvCtx → Zval × ZvCtx
shared_ref_exit (long (pos i)) ctx = elim (get_elem? ctx.u.refs i) [
  | none ↦ (long (pos i), set_error share_range ctx)
  | some v ↦ (v, ctx)
]
shared_ref_exit (long (negsuc i)) ctx = (long (negsuc i), set_error share_range ctx)
shared_ref_exit v ctx = (v, set_error share_not_int ctx)

-- The table `tag_handlers`: the call of `h_enter`, `h_exit` and `h_child`.
unfoldable pub call_enter : Thi → ZvCtx → ZvItem → Bool × ZvCtx × ZvItem
unfolding str_ref_ns_enter str_ref_enter shareable_enter
call_enter Thi.str_ref_ns ctx item = str_ref_ns_enter ctx item
call_enter Thi.str_ref ctx item = str_ref_enter ctx item
call_enter Thi.shareable ctx item = shareable_enter ctx item
call_enter Thi.shared_ref ctx item = (true, ctx, item)
call_enter Thi.none ctx item = (true, ctx, item)

unfoldable pub call_exit : Thi → Zval → SiValue → ZvCtx → Zval × ZvCtx
unfolding str_ref_ns_exit str_ref_exit shareable_exit shared_ref_exit
call_exit Thi.str_ref_ns v state ctx = str_ref_ns_exit v ctx
call_exit Thi.str_ref v state ctx = str_ref_exit v ctx
call_exit Thi.shareable v state ctx = shareable_exit v state ctx
call_exit Thi.shared_ref v state ctx = shared_ref_exit v ctx
call_exit Thi.none v state ctx = (v, ctx)

-- The context, the child and the parent after the call of one handler.
unfoldable pub call_child :
    Thi → ZvCtx → ZvStackItem → ZvStackItem → ZvCtx × ZvStackItem × ZvStackItem
unfolding str_ref_ns_child shareable_child
call_child Thi.str_ref_ns ctx item self =
    let (ctx', item') = str_ref_ns_child ctx item in (ctx', item', self)
call_child Thi.shareable ctx item self =
    let (ctx', self') = shareable_child ctx item self in (ctx', item, self')
call_child _ ctx item self = (ctx, item, self)

-- The handlers of a parent, up to the first free place; the parent is written back.
unfoldable pub child_handlers :
    Thi → ZvStackItem → ZvStackItem → List ZvStackItem → ZvCtx → ZvCtx × ZvStackItem
unfolding call_child
child_handlers Thi.none item parent rest ctx = (ctx, item)
child_handlers thi item parent rest ctx =
    let (ctx1, item1, parent1) = call_child thi ctx item parent in
    let (ctx2, item2, parent2) = call_child parent.ext.thi_child1 ctx1 item1 parent1 in
    (record ctx2 { stack = parent2 ∷ rest }, item2)

unfoldable pub push_under : List ZvStackItem → ZvStackItem → ZvCtx → ZvCtx × ZvStackItem
unfolding child_handlers
push_under [] item ctx = (ctx, item)
push_under (parent ∷ rest) item ctx = child_handlers parent.ext.thi_child0 item parent rest ctx

-- `zv_si_push`: `item` is about to be pushed.
unfoldable pub zv_si_push : ZvStackItem → ZvCtx → ZvCtx × ZvStackItem
unfolding push_under
zv_si_push item ctx = push_under ctx.stack item ctx
