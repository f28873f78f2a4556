-- ===== src/Base/Bits.antt =====
-- Masks on one byte as arithmetic, each checked over all bytes by evaluation.
use Prim.Native.Nat.{ℕ, zero, suc, ◌*◌, ◌/◌, ◌%◌, ◌<◌, bit_and}
use mathlib.Core.Path.{◌≡◌, refl}
use mathlib.Core.Bool.{Bool, true, ◌&&◌}
use native.Mathlib.Omega.{arith}
use php_ext_cbor.Base.Tests.{◌==◌, ==_iff}

-- Every number under the bound passes the test.
unfoldable pub passes_under : ℕ → (ℕ → Bool) → Bool
passes_under zero test = true
passes_under (suc bound) test = passes_under bound test && test bound

-- So a number under the bound passes it.
pub passes_under_at :
    (bound : ℕ) (test : ℕ → Bool) (i : ℕ)
    → passes_under bound test ≡ true
    → i < bound
    → test i ≡ true
unfolding passes_under
passes_under_at zero test i all under = absurd (omega arith)
passes_under_at (suc bound) test i all under = ground (arith, passes_under_at bound test i)

major_table : passes_under 256 (λ b. bit_and b 0xe0 == b / 32 * 32) ≡ true
unfolding passes_under
major_table = refl

info_table : passes_under 256 (λ b. bit_and b 0x1f == b % 32) ≡ true
unfolding passes_under
info_table = refl

pub major_bits : (b : ℕ) → b < 256 → bit_and b 0xe0 ≡ b / 32 * 32
major_bits b h = (==_iff _ _).0 (passes_under_at 256 _ b major_table h)

pub info_bits : (b : ℕ) → b < 256 → bit_and b 0x1f ≡ b % 32
info_bits b h = (==_iff _ _).0 (passes_under_at 256 _ b info_table h)
