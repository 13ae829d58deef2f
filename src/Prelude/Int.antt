-- ===== src/Prelude/Int.antt =====
-- Signed integers over the native numbers, for the `int` parameters of the program (ports).
use p2p_server_file_storage.Prelude.Tests.{ltb}
use Prim.Native.Nat.{ℕ}
use mathlib.Core.Bool.{Bool, true, false}

-- `negsuc n` is -(n + 1).
pub data ℤ : Type 0 where
  pos : ℕ → ℤ
  negsuc : ℕ → ℤ

-- `0 < a` and `a < n`, for a natural bound.
abbrev pub is_positive : ℤ → Bool
is_positive (pos n) = ltb 0 n
is_positive (negsuc n) = false

abbrev pub below_ℕ : ℤ → ℕ → Bool
below_ℕ (pos n) b = ltb n b
below_ℕ (negsuc n) b = true
