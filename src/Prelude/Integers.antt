-- ===== src/Prelude/Integers.antt =====
-- Signed numbers, for `int` and for the ticks of a clock.
use Prim.Native.Nat.{ℕ, suc, ◌+◌, ◌-◌, ◌≤◌}
use mathlib.Core.Path.{◌≡◌}
use mathlib.Core.Logic.{◌↔◌}
use mathlib.Core.Bool.{Bool, true, false}
use native.Mathlib.Omega.{arith}
use my_web_socket.Prelude.Tests.{ltb, if◌then◌else◌, lt→ltb, ltb_false→le}

-- `negsuc n` is -(n + 1).
pub data ℤ : Type 0 where
  pos negsuc : ℕ → ℤ

unfoldable pub add_pos : ℤ → ℕ → ℤ
add_pos (pos a) n = pos (a + n)
add_pos (negsuc a) n = if ltb a n then pos (n - suc a) else negsuc (a - n)

unfoldable pub ltb_int : ℤ → ℤ → Bool
ltb_int (pos a) (pos b) = ltb a b
ltb_int (pos a) (negsuc b) = false
ltb_int (negsuc a) (pos b) = true
ltb_int (negsuc a) (negsuc b) = ltb b a

infix 4 ◌≤ℤ◌
abbrev pub ◌≤ℤ◌ : ℤ → ℤ → Type 0
pos a ≤ℤ pos b = a ≤ b
pos a ≤ℤ negsuc b = ⊥
negsuc a ≤ℤ pos b = Unit
negsuc a ≤ℤ negsuc b = b ≤ a

pub ltb_int_iff : (x y : ℤ) → (ltb_int x y ≡ false) ↔ (y ≤ℤ x)
unfolding ltb_int
ltb_int_iff (pos a) (pos b) = ground (arith, lt→ltb a b, ltb_false→le a b)
ltb_int_iff (pos a) (negsuc b) = ground arith
ltb_int_iff (negsuc a) (pos b) = ground arith
ltb_int_iff (negsuc a) (negsuc b) = ground (arith, lt→ltb b a, ltb_false→le b a)
