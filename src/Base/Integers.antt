-- ===== src/Base/Integers.antt =====
-- Integers over the native numbers, and the comparisons with constants that the code writes.
use Prim.Native.Nat.{ℕ, suc}
use mathlib.Core.Bool.{Bool, true, false}
use metaflux_client_rust.Base.Tests.{ltb}

-- `pos n` is `n`, and `negsuc n` is `-(n + 1)`.
pub data ℤ : Type 0 where
  pos negsuc : ℕ → ℤ

-- `z < 0`
abbrev pub is_negative : ℤ → Bool
is_negative (pos n) = false
is_negative (negsuc n) = true

-- `z > k`
abbrev pub exceeds : ℤ → ℕ → Bool
exceeds (pos n) k = ltb k n
exceeds (negsuc n) k = false

-- `z < -k`
abbrev pub under : ℤ → ℕ → Bool
under (pos n) k = false
under (negsuc n) k = ltb k (suc n)
