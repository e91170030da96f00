-- ===== src/Common/Memory.antt =====
-- Integers in memory, lowest byte first, as the platforms of the repository lay them out.
use Prim.Native.Nat.{ℕ, zero, suc, ◌+◌, ◌*◌, ◌/◌, ◌%◌, ◌^◌, ◌<◌}
use mathlib.Core.Path.{◌≡◌, refl, ap}
use mathlib.Core.List.{List, [], ◌∷◌, ◌++◌}
use native.Mathlib.Omega.{arith}
use native.Mathlib.Nat.{pow-suc}
use network_core.Common.Lists.{length}

-- the `width` bytes of an integer, and the integer of the first `width` bytes
unfoldable pub le_store : ℕ → ℕ → List ℕ
le_store zero v = []
le_store (suc width) v = v % 256 ∷ le_store width (v / 256)

unfoldable pub le_load : ℕ → List ℕ → ℕ
le_load zero b = 0
le_load (suc width) [] = 0
le_load (suc width) (x ∷ b) = x % 256 + 256 * le_load width b

pow_pos : (width : ℕ) → 0 < 256 ^ width
pow_pos zero = omega arith
pow_pos (suc width) = omega (arith, pow-suc 256 width, pow_pos width)

pub le_load-lt : (width : ℕ) (b : List ℕ) → le_load width b < 256 ^ width
unfolding le_load
le_load-lt zero b = omega arith
le_load-lt (suc width) [] = pow_pos (suc width)
le_load-lt (suc width) (x ∷ b) = omega (arith, pow-suc 256 width, le_load-lt width b)

-- What was stored is loaded again, whatever follows it in memory.
pub le_load-le_store :
    (width v : ℕ) (rest : List ℕ) → v < 256 ^ width → le_load width (le_store width v ++ rest) ≡ v
unfolding le_load le_store
le_load-le_store zero v rest h = omega arith
le_load-le_store (suc width) v rest h =
    omega (arith, le_load-le_store width (v / 256) rest (omega (arith, pow-suc 256 width)))

pub length-le_store : (width v : ℕ) → length (le_store width v) ≡ width
unfolding le_store
length-le_store zero v = refl
length-le_store (suc width) v = ap suc (length-le_store width (v / 256))
