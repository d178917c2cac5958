-- ===== src/Prelude/Int.antt =====
-- Signed integers with the order that the engine sorts priorities by.
use Prim.Native.Nat.{ℕ}
use native.Mathlib.Omega.{arith}
use mathlib.Core.Path.{◌≡◌}
use mathlib.Core.Logic.{◌↔◌}
use mathlib.Core.Bool.{Bool, true, false}
use anchorix.Prelude.Tests.{ltb, ◌==◌ as nat_eq}

-- `negsuc n` is -(n + 1).
pub data ℤ : Type 0 where
  pos : ℕ → ℤ
  negsuc : ℕ → ℤ

abbrev pub ltb_int : ℤ → ℤ → Bool
ltb_int (pos a) (pos b) = ltb a b
ltb_int (pos a) (negsuc b) = false
ltb_int (negsuc a) (pos b) = true
ltb_int (negsuc a) (negsuc b) = ltb b a

abbrev pub eq_int : ℤ → ℤ → Bool
eq_int (pos a) (pos b) = nat_eq a b
eq_int (negsuc a) (negsuc b) = nat_eq a b
eq_int _ _ = false

pub eq_int_iff : (m n : ℤ) → (eq_int m n ≡ true) ↔ (m ≡ n)
eq_int_iff (pos a) (pos b) = ground arith
eq_int_iff (negsuc a) (negsuc b) = ground arith
eq_int_iff (pos a) (negsuc b) = ground arith
eq_int_iff (negsuc a) (pos b) = ground arith
