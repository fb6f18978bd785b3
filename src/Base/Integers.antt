-- ===== src/Base/Integers.antt =====
-- The integers, for numbers that `parseInt` reads.
use Prim.Native.Nat.{ℕ, zero, suc}
use mathlib.Core.Bool.{Bool, false, ◌&&◌}
use industry_dashboard.Base.Tests.{leb}

-- `negsuc n` is -(n + 1).
pub data ℤ : Type 0 where
  pos negsuc : ℕ → ℤ

-- `a || b`
unfoldable pub or_else : ℤ → ℕ → ℤ
or_else (pos zero) b = pos b
or_else (pos (suc a)) b = pos (suc a)
or_else (negsuc a) b = negsuc a

-- `lo <= v && v <= hi`
unfoldable pub is_between : ℕ → ℕ → ℤ → Bool
is_between lo hi (pos n) = leb lo n && leb n hi
is_between lo hi (negsuc n) = false
