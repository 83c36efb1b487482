-- ===== src/Prelude/Words.antt =====
-- `u8` and `u64` arithmetic of a build without overflow checks: sums and left shifts wrap, and
-- the distance of a shift counts modulo 64.
use Prim.Native.Nat.{ℕ, zero, suc, ◌-◌, ◌*◌, ◌/◌, ◌%◌, ◌^◌, ◌<◌}
use mathlib.Core.Path.{◌≡◌}
use native.Mathlib.Nat.{mod-eq_of_lt}
use incrementalmerkletree.Prelude.Tests.{◌==◌}
use mathlib.Core.Bool.{true, false}

abbrev pub u8 : ℕ → ℕ
u8 n = n % 2 ^ 8

abbrev pub u64 : ℕ → ℕ
u64 n = n % 2 ^ 64

unfoldable pub shl : ℕ → ℕ → ℕ
shl x k = u64 (x * 2 ^ (k % 64))

unfoldable pub shr : ℕ → ℕ → ℕ
shr x k = x / 2 ^ (k % 64)

-- `u64::BITS - x.leading_zeros()`, by halving at most 64 times.
unfoldable pub bits_used : ℕ → ℕ → ℕ
bits_used zero x = 0
bits_used (suc f) x = elim (x == 0) [ true ↦ 0 | false ↦ suc (bits_used f (x / 2)) ]

unfoldable pub leading_zeros : ℕ → ℕ
unfolding bits_used
leading_zeros x = 64 - bits_used 64 x

pub shl-lt : (x k : ℕ) → k < 64 → x * 2 ^ k < 2 ^ 64 → shl x k ≡ x * 2 ^ k
unfolding shl
shl-lt x k h fits = rw (mod-eq_of_lt h) (mod-eq_of_lt fits)

pub shr-lt : (x k : ℕ) → k < 64 → shr x k ≡ x / 2 ^ k
unfolding shr
shr-lt x k h = rw (mod-eq_of_lt h)
