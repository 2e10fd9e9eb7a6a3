-- ===== src/Prelude/Bits.antt =====
-- The bit operations of the source on bytes, as arithmetic: a mask or a test of a byte is read off
-- a table of its 256 values, `(x << 8) | b` is a sum.
use Prim.Native.Nat.{
  ℕ, zero, suc, ◌+◌, ◌*◌, ◌/◌, ◌%◌, ◌≤◌, ◌<◌, max, bit_and, bit_or, bit_xor, digits, bit_or-bitwise,
}
use Prim.Native.Nat.{min, bit_and-bitwise}
use mathlib.Core.Path.{◌≡◌, refl}
use mathlib.Core.Bool.{Bool, true, ◌&&◌}
use native.Mathlib.Omega.{arith}
use my_web_socket.Prelude.Tests.{◌==◌, ==_iff, ltb, ltb→lt}

-- A test that every number below a bound passes, by evaluation.
pub passes : (ℕ → Bool) → ℕ → Bool
passes test zero = true
passes test (suc bound) = passes test bound && test bound

pub passes_at :
    (test : ℕ → Bool) (bound k : ℕ) → k < bound → passes test bound ≡ true → test k ≡ true
unfolding passes
passes_at test (suc bound) k below all = ground (arith, passes_at test bound k)
passes_at test zero k below all = absurd (omega arith)

high_bit_table : passes (λ x. bit_and x 0x80 == x / 128 * 128) 256 ≡ true
unfolding passes
high_bit_table = refl

low_7_table : passes (λ x. bit_and x 0x7f == x % 128) 256 ≡ true
unfolding passes
low_7_table = refl

low_4_table : passes (λ x. bit_and x 0x0f == x % 16) 256 ≡ true
unfolding passes
low_4_table = refl

rsv_table : passes (λ x. bit_and x 0x70 / 16 == x / 16 % 8) 256 ≡ true
unfolding passes
rsv_table = refl

or_fin_table : passes (λ x. bit_or 0x80 x == 128 + x) 16 ≡ true
unfolding passes
or_fin_table = refl

pub bit_and_high : (x : ℕ) → x < 256 → bit_and x 0x80 ≡ x / 128 * 128
bit_and_high x h = (==_iff _ _).0 (passes_at _ 256 x h high_bit_table)

pub bit_and_low_7 : (x : ℕ) → x < 256 → bit_and x 0x7f ≡ x % 128
bit_and_low_7 x h = (==_iff _ _).0 (passes_at _ 256 x h low_7_table)

pub bit_and_low_4 : (x : ℕ) → x < 256 → bit_and x 0x0f ≡ x % 16
bit_and_low_4 x h = (==_iff _ _).0 (passes_at _ 256 x h low_4_table)

pub bit_and_rsv : (x : ℕ) → x < 256 → bit_and x 0x70 / 16 ≡ x / 16 % 8
bit_and_rsv x h = (==_iff _ _).0 (passes_at _ 256 x h rsv_table)

pub bit_or_fin : (x : ℕ) → x < 16 → bit_or 0x80 x ≡ 128 + x
bit_or_fin x h = (==_iff _ _).0 (passes_at _ 16 x h or_fin_table)

xor_table : passes (λ x. passes (λ k. bit_xor (bit_xor x k) k == x) 256) 256 ≡ true
unfolding passes
xor_table = refl

-- Masking a byte twice gives it back.
pub bit_xor_twice : (x k : ℕ) → x < 256 → k < 256 → bit_xor (bit_xor x k) k ≡ x
bit_xor_twice x k hx hk = (==_iff _ _).0 (passes_at _ 256 k hk (passes_at _ 256 x hx xor_table))

-- The recursion on digits that the native operations stand for needs only as many rounds as its
-- first number is large.
module _ (last : ℕ → ℕ) (op : ℕ → ℕ → ℕ) where
  rounds_enough : (x y r s : ℕ) → x ≤ r → x ≤ s → digits last op r x y ≡ digits last op s x y
  rounds_enough zero y zero (suc s) hr hs = refl
  rounds_enough zero y (suc r) (suc s) hr hs = refl
  rounds_enough zero y (suc r) zero hr hs = refl
  rounds_enough zero y zero zero hr hs = refl
  rounds_enough (suc x) y (suc r) (suc s) hr hs =
      omega (arith, rounds_enough (suc x / 2) (y / 2) r s (omega arith) (omega arith))
  rounds_enough (suc x) y zero s hr hs = absurd (omega arith)
  rounds_enough (suc x) y (suc r) zero hr hs = absurd (omega arith)

zero-bit_or : (b : ℕ) → bit_or 0 b ≡ b
zero-bit_or b = bit_or-bitwise 0 b

bit_or_step : (a b : ℕ) → bit_or a b ≡ bit_or (a / 2) (b / 2) * 2 + max (a % 2) (b % 2)
bit_or_step zero b = omega (arith, zero-bit_or b, zero-bit_or (b / 2))
bit_or_step (suc a) b = omega (
  arith,
  bit_or-bitwise (suc a) b,
  bit_or-bitwise (suc a / 2) (b / 2),
  rounds_enough (λ y. y) max (suc a / 2) (b / 2) a (suc a / 2) (omega arith) (omega arith),
)

or_zero_rounds : (n a : ℕ) → a ≤ n → bit_or a 0 ≡ a
or_zero_rounds n zero h = zero-bit_or 0
or_zero_rounds zero (suc a) h = absurd (omega arith)
or_zero_rounds (suc n) (suc a) h =
    omega (arith, bit_or_step (suc a) 0, or_zero_rounds n (suc a / 2) (omega arith))

pub bit_or-zero : (a : ℕ) → bit_or a 0 ≡ a
bit_or-zero a = or_zero_rounds a a (omega arith)

bit_or_double : (q b : ℕ) → bit_or (q * 2) b ≡ bit_or q (b / 2) * 2 + b % 2
bit_or_double q b = ground (arith, bit_or_step (q * 2) b)

bit_or_4 : (q b : ℕ) → b < 16 → bit_or (q * 2 * 2 * 2 * 2) b ≡ q * 16 + b
bit_or_4 q b h = ground (
  arith,
  bit_or_double (q * 2 * 2 * 2) b,
  bit_or_double (q * 2 * 2) (b / 2),
  bit_or_double (q * 2) (b / 2 / 2),
  bit_or_double q (b / 2 / 2 / 2),
  bit_or-zero q,
)

bit_or_8 : (q b : ℕ) → b < 256 → bit_or (q * 2 * 2 * 2 * 2 * 2 * 2 * 2 * 2) b ≡ q * 256 + b
bit_or_8 q b h = ground (
  arith,
  bit_or_double (q * 2 * 2 * 2 * 2 * 2 * 2 * 2) b,
  bit_or_double (q * 2 * 2 * 2 * 2 * 2 * 2) (b / 2),
  bit_or_double (q * 2 * 2 * 2 * 2 * 2) (b / 2 / 2),
  bit_or_double (q * 2 * 2 * 2 * 2) (b / 2 / 2 / 2),
  bit_or_4 q (b / 2 / 2 / 2 / 2),
)

-- `(q << 8) | b` for a byte `b`.
pub bit_or_byte : (q b : ℕ) → b < 256 → bit_or (q * 256) b ≡ q * 256 + b
bit_or_byte q b h = ground (arith, bit_or_8 q b)

bit_and_step : (a b : ℕ) → bit_and a b ≡ bit_and (a / 2) (b / 2) * 2 + min (a % 2) (b % 2)
bit_and_step zero b = omega (arith, bit_and-bitwise 0 b, bit_and-bitwise 0 (b / 2))
bit_and_step (suc a) b = omega (
  arith,
  bit_and-bitwise (suc a) b,
  bit_and-bitwise (suc a / 2) (b / 2),
  rounds_enough (λ y. 0) min (suc a / 2) (b / 2) a (suc a / 2) (omega arith) (omega arith),
)

and_zero_rounds : (n a : ℕ) → a ≤ n → bit_and a 0 ≡ 0
and_zero_rounds n zero h = bit_and-bitwise 0 0
and_zero_rounds zero (suc a) h = absurd (omega arith)
and_zero_rounds (suc n) (suc a) h =
    omega (arith, bit_and_step (suc a) 0, and_zero_rounds n (suc a / 2) (omega arith))

bit_and-fifteen : (a : ℕ) → bit_and a 15 ≡ a % 16
bit_and-fifteen a = omega (
  arith,
  bit_and_step a 15,
  bit_and_step (a / 2) 7,
  bit_and_step (a / 2 / 2) 3,
  bit_and_step (a / 2 / 2 / 2) 1,
  and_zero_rounds (a / 2 / 2 / 2 / 2) (a / 2 / 2 / 2 / 2) (omega arith),
)

-- `n & 0xFF` is the lowest byte.
pub bit_and_byte : (a : ℕ) → bit_and a 0xff ≡ a % 256
bit_and_byte a = omega (
  arith,
  bit_and_step a 255,
  bit_and_step (a / 2) 127,
  bit_and_step (a / 2 / 2) 63,
  bit_and_step (a / 2 / 2 / 2) 31,
  bit_and-fifteen (a / 2 / 2 / 2 / 2),
)

xor_size_table : passes (λ x. passes (λ k. ltb (bit_xor x k) 256) 256) 256 ≡ true
unfolding passes
xor_size_table = refl

pub bit_xor_size : (x k : ℕ) → x < 256 → k < 256 → bit_xor x k < 256
bit_xor_size x k hx hk =
    ltb→lt (bit_xor x k) 256 (passes_at _ 256 k hk (passes_at _ 256 x hx xor_size_table))
