-- ===== src/Zv/Depth.antt =====
-- src/decode_zv.h with src/decode.c: the bound on the nesting, and the end of every decoding.
use php_ext_cbor.Base.{
  ℕ, ◌+◌, ◌%◌, ◌^◌, ◌≤◌, ◌<◌, ◌≡◌, refl, ap, ◌∙◌, false, List, ◌∷◌, leb, length, arith,
}
use php_ext_cbor.Codec.{Fragment, DecodeArgs}
use php_ext_cbor.Decode.Frame.{dec_item-Kept}
use php_ext_cbor.Decode.Process.{done, Decoding, decode}
use php_ext_cbor.Decode.Total.{decode-done}
use php_ext_cbor.Zv.{Engine, ZvState, ZvCtx, ZvStackItem}
use php_ext_cbor.Zv.Keeps.{Level, Closed, zv_methods-Keeps}
use php_ext_cbor.Decode.Item.{dec_item}
use php_ext_cbor.Zv.Frame.{Shrinks}
use php_ext_cbor.Zv.Proc.{zv_methods}

-- Decoding with the arguments `a` in the fragment `mem`: the depth is the number of open items, and
-- at most the limit.
pub record Within (a : DecodeArgs) (fragment : Fragment) (c : ZvCtx) : Type 0 where
  pub mem : c.mem ≡ fragment
  pub args : c.args ≡ a
  pub counted : c.stack_depth ≡ length c.stack
  pub bounded : c.stack_depth ≤ a.max_depth

Shrinks-Within :
    {a : DecodeArgs} {fragment : Fragment} {b c : ZvCtx}
    → Shrinks b c
    → Within a fragment b
    → Within a fragment c
Shrinks-Within s h = record {
  mem = s.mem ∙ h.mem;
  args = s.args ∙ h.args;
  counted = s.counted h.counted;
  bounded = omega (arith, s.counted h.counted, h.counted);
}

module _ (a : DecodeArgs) (fragment : Fragment) (small : a.max_depth < 2 ^ 32) where
  -- The item on top of a stack that is lower than the limit. The count of the items does not wrap.
  pushed-Within :
      (b c : ZvCtx) (item : ZvStackItem)
      → Within a fragment b
      → Level b c
      → leb b.args.max_depth b.stack_depth ≡ false
      → Within a fragment
          (record c { stack = item ∷ c.stack; stack_depth = (c.stack_depth + 1) % 2 ^ 32 })
  pushed-Within b c item h l e =
      let lt : b.stack_depth < a.max_depth =
        ground (arith, ap (λ (x : DecodeArgs). x.max_depth) h.args) in
      record {
        mem = l.level_mem ∙ h.mem;
        args = l.level_args ∙ h.args;
        counted = omega (arith, l.level_depth, l.level_height, h.counted);
        bounded = omega (arith, l.level_depth);
      }

  Within-Closed : Closed (Within a fragment)
  Within-Closed = record { shrinks = Shrinks-Within; pushed = pushed-Within }

  -- An item keeps the depth equal to the number of the open items and at most the limit, whatever the
  -- bytes are.
  pub dec_item-Within :
      (engine : Engine) (bytes : List ℕ) (c : ZvCtx)
      → Within a fragment c
      → Within a fragment (dec_item (zv_methods engine) bytes c).2
  dec_item-Within engine bytes c h =
      dec_item-Kept (zv_methods engine) (Within a fragment)
        (zv_methods-Keeps (Within a fragment) Within-Closed engine) bytes c h

same_mem-Closed : (mem : Fragment) → Closed (λ c. c.mem ≡ mem)
same_mem-Closed mem = record {
  shrinks = λ s h. s.mem ∙ h;
  pushed = λ b c item h l e. l.level_mem ∙ h;
}

-- Decoding to PHP values ends on every input with every argument.
pub zv_decode-done :
    (engine : Engine) (s : ZvState) (args : DecodeArgs) (bytes : List ℕ)
    → (d : Decoding (zv_methods engine)) × (decode (zv_methods engine) s args bytes ≡ done d)
unfolding zv_methods
zv_decode-done engine s args bytes =
    decode-done (zv_methods engine)
      (λ mem. zv_methods-Keeps (λ c. c.mem ≡ mem) (same_mem-Closed mem) engine) (λ c. refl) s args
      bytes
