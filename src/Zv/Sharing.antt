-- ===== src/Zv/Sharing.antt =====
-- src/decode_zv.h, the tags 28 and 29: what a shared reference gives back, and what becomes of a
-- shared map that is read as a `stdClass`.
use php_ext_cbor.Base.{
  ℕ, zero, suc, ◌<◌, ◌≡◌, refl, true, none, some, List, [], ◌∷◌, length, arith, get_elem?,
  get_elem?-set_self,
}
use php_ext_cbor.Base.Int.{pos}
use php_ext_cbor.Decode.{set_error}
use php_ext_cbor.Zv.{
  Zval, null, long, object, reference, Object, std_class, Entries, name, map, tag_shareable, Thi,
  ZvState, ZvCtx, ZvStackItem,
}
use php_ext_cbor.Zv.Table.{new_object, set_object, object_at, new_reference, update}
use php_ext_cbor.Zv.Tags.{set_ref}
use php_ext_cbor.Zv.Share.{
  wraps_shared, shared_place, shareable_child, share_scalar, share_container, shareable_exit,
  shared_ref_exit, update_value_property, value_name,
}

-- After a tag 28 around a value that opened no container, a tag 29 with the index that the tag 28
-- took gives what the tag 28 gave, if the index is one of the table's and there is no error.
pub shared_ref_exit-share_scalar :
    (v : Zval) (i : ℕ) (ctx : ZvCtx)
    → i < length ctx.u.refs
    → ctx.cb_error ≡ none
    → (share_scalar v i ctx).1.cb_error ≡ none
    → shared_ref_exit (long (pos i)) (share_scalar v i ctx).1 ≡ share_scalar v i ctx
unfolding shared_ref_exit share_scalar new_reference new_object set_error
shared_ref_exit-share_scalar v i ctx h ok e = ground (
  arith,
  get_elem?-set_self ctx.u.refs i v h,
  get_elem?-set_self ctx.u.refs i (reference (length ctx.u.cells)) h,
  get_elem?-set_self ctx.u.refs i (object (length ctx.u.objects)) h,
)

get_elem?_bound : (xs : List Object) (i : ℕ) (x : Object) → get_elem? xs i ≡ some x → i < length xs
get_elem?_bound [] i x e = absurd (cc e)
get_elem?_bound (y ∷ ys) zero x e = omega arith
get_elem?_bound (y ∷ ys) (suc i) x e = omega (arith, get_elem?_bound ys i x e)

update_std_class :
    (h : ℕ) (v : Zval) (es : Entries) (s : ZvState)
    → get_elem? s.objects h ≡ some (std_class es)
    → update_value_property (object h) v s
      ≡ set_object h (std_class (update (name value_name) v es)) s
unfolding update_value_property object_at
update_std_class h v es s e = rw (update_value_property, e) refl

ref_read :
    (i : ℕ) (v : Zval) (c : ZvCtx)
    → get_elem? c.u.refs i ≡ some v
    → shared_ref_exit (long (pos i)) c ≡ (v, c)
unfolding shared_ref_exit
ref_read i v c e = rw (shared_ref_exit, e) refl

module _ (ctx : ZvCtx) (item self : ZvStackItem) (key : Zval) (h n i : ℕ) (es : Entries)
    (w : wraps_shared ctx ≡ true) (small : i < length ctx.u.refs)
    (em : item.ext.v ≡ map (object h) key n)
    (es' : self.ext.v ≡ tag_shareable 28 Thi.shareable null i)
    (eo : object_at h ctx.u ≡ some (std_class es)) where
  map_shared :
      let (ctx', self') = shareable_child ctx item self in
      let (v, ctx'') = shareable_exit (object h) self'.ext.v ctx' in
      (v ≡ object h)
      × (get_elem? ctx''.u.refs i ≡ some (object h))
      × (object_at h ctx''.u ≡ some (std_class (update (name value_name) (object h) es)))
  unfolding shareable_child shareable_exit shared_place share_container update_value_property
      object_at set_object
  map_shared =
      let there =
        get_elem?-set_self ctx.u.objects h (std_class (update (name value_name) (object h) es))
          (get_elem?_bound ctx.u.objects h (std_class es) eo) in
      let written = update_std_class h (object h) es (set_ref i (object h) ctx.u) eo in
      rw (em, es', w)
        (refl, rw written (get_elem?-set_self ctx.u.refs i (object h) small), rw written there)

  -- With `shared_ref` 'shareable' or 'shareable_only', a map that opens as a `stdClass` right under a
  -- tag 28 is filed in the table of shared values as itself, under the index that the tag took, if the
  -- index is one of the table's. The end of the tag gives the object and writes a property `value` to
  -- it that holds the object itself; a tag 29 with the index then gives the object.
  pub shared_map-holds_itself :
      let (ctx', self') = shareable_child ctx item self in
      let (v, ctx'') = shareable_exit (object h) self'.ext.v ctx' in
      (v ≡ object h)
      × (get_elem? ctx''.u.refs i ≡ some (object h))
      × (shared_ref_exit (long (pos i)) ctx'' ≡ (object h, ctx''))
      × (object_at h ctx''.u ≡ some (std_class (update (name value_name) (object h) es)))
  shared_map-holds_itself =
      let (same, filed, itself) = map_shared in (same, filed, ref_read i (object h) _ filed, itself)
