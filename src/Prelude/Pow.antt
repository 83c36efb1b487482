-- ===== src/Prelude/Pow.antt =====
-- Powers of two and quotients by them.
use Prim.Native.Nat.{ℕ, zero, suc, ◌+◌, ◌*◌, ◌/◌, ◌^◌, ◌≤◌, ◌<◌}
use mathlib.Core.Path.{◌≡◌, refl}
use native.Mathlib.Nat.{pow-suc, one-le-pow, div-div-eq-div-mul, pow-le-pow_right}
use native.Mathlib.Omega.{arith}
use incrementalmerkletree.Prelude.Words.{bits_used}

pub pow_pos : (k : ℕ) → 1 ≤ 2 ^ k
pow_pos k = one-le-pow k 2 (omega arith)

pub pow_double : (k : ℕ) → 2 ^ suc k ≡ 2 * 2 ^ k
pow_double k = omega (arith, pow-suc 2 k)

pub pow_add : (a b : ℕ) → 2 ^ (a + b) ≡ 2 ^ a * 2 ^ b
pow_add a zero = let e : a + 0 ≡ a = omega arith in rw e (omega arith)
pow_add a (suc b) =
    let e : a + suc b ≡ suc (a + b) = omega arith in
    rw (e, pow_double, pow_double, pow_add a b) (grind arith)

pub pow_mono : (a b : ℕ) → a ≤ b → 2 ^ a ≤ 2 ^ b
pow_mono a b h = pow-le-pow_right (omega arith) h

-- Shifting by one more place halves the result.
pub div_pow_suc : (x k : ℕ) → x / 2 ^ suc k ≡ x / 2 ^ k / 2
div_pow_suc x k = rw (pow-suc, div-div-eq-div-mul) refl

-- Halving first is the same.
pub half_div_pow : (x k : ℕ) → x / 2 / 2 ^ k ≡ x / 2 ^ suc k
half_div_pow x k = rw (pow_double, div-div-eq-div-mul) refl

pub div_pow_add : (x a b : ℕ) → x / 2 ^ a / 2 ^ b ≡ x / 2 ^ (a + b)
div_pow_add x a b = rw (pow_add, div-div-eq-div-mul) refl

pub div_pow_zero : (x : ℕ) → x / 2 ^ 0 ≡ x
div_pow_zero x = omega arith

-- The number of bits of `x` bounds it from both sides.
pub lt-pow-bits_used : (f x : ℕ) → x < 2 ^ f → x < 2 ^ bits_used f x
unfolding bits_used
lt-pow-bits_used zero x h = h
lt-pow-bits_used (suc f) x h = ground (
  arith,
  lt-pow-bits_used f (x / 2) (omega (arith, pow_double f)),
  pow_double (bits_used f (x / 2)),
)

pub bits_used-le : (f x : ℕ) → bits_used f x ≤ f
unfolding bits_used
bits_used-le zero x = omega arith
bits_used-le (suc f) x = ground (arith, bits_used-le f (x / 2))

-- `bits_used` is the least number of levels that hold position `x`.
pub bits_used-le_of_lt : (f x k : ℕ) → x < 2 ^ k → bits_used f x ≤ k
unfolding bits_used
bits_used-le_of_lt zero x k h = omega arith
bits_used-le_of_lt (suc f) x zero h = let e : x ≡ 0 = omega arith in rw e (omega arith)
bits_used-le_of_lt (suc f) x (suc k) h =
    ground (arith, bits_used-le_of_lt f (x / 2) k (omega (arith, pow_double k)))
