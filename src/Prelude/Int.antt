-- ===== src/Prelude/Int.antt =====
-- Python's signed integers over the native numbers, as far as the modelled code compares and
-- prints them.
use Prim.Native.Nat.{ℕ, suc}
use Prim.Native.String.{String}
use mathlib.Core.Bool.{Bool, true, false}
use helix_grid.Prelude.Tests.{ltb, ◌==◌, if◌then◌else◌}
use helix_grid.Prelude.Texts.{◌&◌, decimal}

-- `negsuc n` is -(n + 1).
pub data ℤ : Type 0 where
  pos : ℕ → ℤ
  negsuc : ℕ → ℤ

-- `max(k, z)` for a natural number `k`
abbrev pub max_ℕ : ℕ → ℤ → ℕ
max_ℕ k (pos n) = if ltb k n then n else k
max_ℕ k (negsuc n) = k

abbrev pub is_negative : ℤ → Bool
is_negative (pos n) = false
is_negative (negsuc n) = true

abbrev pub is_zero : ℤ → Bool
is_zero (pos n) = n == 0
is_zero (negsuc n) = false

unfoldable pub decimal_ℤ : ℤ → String
unfolding decimal
decimal_ℤ (pos n) = decimal n
decimal_ℤ (negsuc n) = "-" & decimal (suc n)
