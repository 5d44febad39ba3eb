-- ===== src/Base/Int.antt =====
-- C's `int` results: zero for success, and negative error codes.
use Prim.Native.Nat.{ℕ}
use mathlib.Core.Path.{◌≡◌}
use mathlib.Core.Bool.{Bool, true, false}
use native.Mathlib.Omega.{arith}
use rpc_kern.Base.Tests.{◌==◌}

-- `negsuc n` is -(n + 1).
pub data ℤ : Type 0 where
  pos : ℕ → ℤ
  negsuc : ℕ → ℤ

-- `!ret`
abbrev pub is_zero : ℤ → Bool
is_zero (pos n) = n == 0
is_zero (negsuc n) = false

pub eq_of_is_zero : (r : ℤ) → is_zero r ≡ true → r ≡ pos 0
eq_of_is_zero r h = ground arith
