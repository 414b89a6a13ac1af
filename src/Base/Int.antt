-- ===== src/Base/Int.antt =====
-- Signed integers over the native numbers: the values of the source's `int`.
use Prim.Native.Nat.{ℕ}
use mathlib.Core.Path.{◌≡◌}
use mathlib.Core.Logic.{◌↔◌}
use mathlib.Core.Bool.{Bool, true, false}
use native.Mathlib.Omega.{arith}
use ai_ppdb.Base.Tests.{◌==◌}

-- `negsuc n` is -(n + 1).
pub data ℤ : Type 0 where
  pos : ℕ → ℤ
  negsuc : ℕ → ℤ

abbrev pub eqb_ℤ : ℤ → ℤ → Bool
eqb_ℤ (pos a) (pos b) = a == b
eqb_ℤ (pos a) (negsuc b) = false
eqb_ℤ (negsuc a) (pos b) = false
eqb_ℤ (negsuc a) (negsuc b) = a == b

pub eqb_ℤ_iff : (a b : ℤ) → (eqb_ℤ a b ≡ true) ↔ (a ≡ b)
eqb_ℤ_iff (ℤ.pos a) (ℤ.pos b) = ground arith
eqb_ℤ_iff (ℤ.pos a) (ℤ.negsuc b) = ground arith
eqb_ℤ_iff (ℤ.negsuc a) (ℤ.pos b) = ground arith
eqb_ℤ_iff (ℤ.negsuc a) (ℤ.negsuc b) = ground arith
