-- ===== src/Prelude/Division.antt =====
-- Division of native numbers.
use Prim.Native.Nat.{ℕ, ◌/◌, ◌≤◌, ◌<◌}
use native.Mathlib.Nat.{div-mul-le_self, le-div_iff_mul-le}
use native.Mathlib.Omega.{arith}

pub le-div : {k m n : ℕ} → m ≤ n → 0 < k → m / k ≤ n / k
le-div {k} {m} le positive = (le-div_iff_mul-le positive).1 (grind (arith, div-mul-le_self m k))
