-- ===== src/Prelude/Bits.antt =====
-- Laws at variables of the bit operations that the code applies to indices.
use Prim.Native.Nat.{digits, bitwise, min, bit_and-bitwise, bit_xor-bitwise, bit_or-bitwise}
use incrementalmerkletree.Prelude.{
  ℕ, zero, suc, ◌+◌, ◌*◌, ◌/◌, ◌%◌, ◌^◌, ◌≤◌, ◌<◌, ◌≡◌, refl, arith, bit_and, bit_or, bit_xor, ◌⊎◌,
  ◌↔◌, ◌≢◌, inl, inr, half_div_pow, pow_double, div_pow_zero, max,
}

-- The exclusive or of two digits, as the native operation defines it.
abbrev differ : ℕ → ℕ → ℕ
differ zero y = y
differ (suc x) zero = suc x
differ (suc x) (suc y) = differ x y

-- One more digit of fuel than is needed changes nothing.
module _ (z : ℕ → ℕ) (f : ℕ → ℕ → ℕ) (z_step : (b : ℕ) → z b ≡ z (b / 2) * 2 + f 0 (b % 2)) where
  digits_enough : (n m a b : ℕ) → a ≤ n → a ≤ m → digits z f n a b ≡ digits z f m a b
  digits_enough zero zero a b p q = refl
  digits_enough zero (suc m) zero b p q = refl
  digits_enough zero (suc m) (suc a) b p q = absurd (omega arith)
  digits_enough (suc n) zero zero b p q = refl
  digits_enough (suc n) zero (suc a) b p q = absurd (omega arith)
  digits_enough (suc n) (suc m) zero b p q = refl
  digits_enough (suc n) (suc m) (suc a) b p q =
      rw (digits_enough n m (suc a / 2) (b / 2) (omega arith) (omega arith))

  bitwise_step : (a b : ℕ) → bitwise z f a b ≡ bitwise z f (a / 2) (b / 2) * 2 + f (a % 2) (b % 2)
  bitwise_step zero b = z_step b
  bitwise_step (suc a) b =
      rw (digits_enough a (suc a / 2) (suc a / 2) (b / 2) (omega arith) (omega arith)) refl

-- The lowest digit of a conjunction.
pub bit_and_step : (a b : ℕ) → bit_and a b ≡ bit_and (a / 2) (b / 2) * 2 + min (a % 2) (b % 2)
bit_and_step a b =
    rw (bit_and-bitwise a b, bit_and-bitwise (a / 2) (b / 2))
      (bitwise_step (λ _. 0) min (λ b. omega arith) a b)

-- The lowest digit of a disjunction.
pub bit_or_step : (a b : ℕ) → bit_or a b ≡ bit_or (a / 2) (b / 2) * 2 + max (a % 2) (b % 2)
bit_or_step a b =
    rw (bit_or-bitwise a b, bit_or-bitwise (a / 2) (b / 2))
      (bitwise_step (λ y. y) max (λ b. omega arith) a b)

-- The lowest digit of an exclusive or.
pub bit_xor_step : (a b : ℕ) → bit_xor a b ≡ bit_xor (a / 2) (b / 2) * 2 + differ (a % 2) (b % 2)
bit_xor_step a b =
    rw (bit_xor-bitwise a b, bit_xor-bitwise (a / 2) (b / 2))
      (bitwise_step (λ y. y) differ (λ b. omega arith) a b)

bit_and-zero_below : (n a : ℕ) → a ≤ n → bit_and a 0 ≡ 0
bit_and-zero_below n zero h = refl
bit_and-zero_below zero (suc a) h = absurd (omega arith)
bit_and-zero_below (suc n) (suc a) h =
    omega (arith, bit_and_step (suc a) 0, bit_and-zero_below n (suc a / 2) (omega arith))

pub bit_and-zero : (a : ℕ) → bit_and a 0 ≡ 0
bit_and-zero a = bit_and-zero_below a a (omega arith)

-- `x & 1` is the parity.
pub bit_and-one : (a : ℕ) → bit_and a 1 ≡ a % 2
bit_and-one a = omega (arith, bit_and_step a 1, bit_and-zero (a / 2))

bit_xor-zero_below : (n a : ℕ) → a ≤ n → bit_xor a 0 ≡ a
bit_xor-zero_below n zero h = refl
bit_xor-zero_below zero (suc a) h = absurd (omega arith)
bit_xor-zero_below (suc n) (suc a) h = ground (
  arith,
  bit_xor_step (suc a) 0,
  bit_xor-zero_below n (suc a / 2) (omega arith),
  differ_zero (suc a % 2),
)
  where
    differ_zero : (x : ℕ) → differ x 0 ≡ x
    differ_zero zero = refl
    differ_zero (suc x) = refl

pub bit_xor-zero : (a : ℕ) → bit_xor a 0 ≡ a
bit_xor-zero a = bit_xor-zero_below a a (omega arith)

-- On binary digits.
differ_digits :
    (x y : ℕ) → x < 2 → y < 2 → ((x ≡ y) × (differ x y ≡ 0)) ⊎ ((x ≢ y) × (differ x y ≡ 1))
differ_digits zero zero p q = inl (refl, refl)
differ_digits zero (suc zero) p q = inr (omega arith, refl)
differ_digits zero (suc (suc y)) p q = absurd (omega arith)
differ_digits (suc zero) zero p q = inr (omega arith, refl)
differ_digits (suc zero) (suc zero) p q = inl (refl, refl)
differ_digits (suc zero) (suc (suc y)) p q = absurd (omega arith)
differ_digits (suc (suc x)) y p q = absurd (omega arith)

-- `x ^ 1` steps to the other number of the pair.
pub bit_xor-one :
    (a : ℕ) → ((a % 2 ≡ 0) × (bit_xor a 1 ≡ a + 1)) ⊎ ((a % 2 ≡ 1) × (bit_xor a 1 + 1 ≡ a))
bit_xor-one a = ground (
  arith,
  bit_xor_step a 1,
  bit_xor-zero (a / 2),
  differ_digits (a % 2) 1 (omega arith) (omega arith),
)

-- An exclusive or vanishes only between equal numbers.
bit_xor_zero_below : (n a b : ℕ) → a ≤ n → b ≤ n → (bit_xor a b ≡ 0) ↔ (a ≡ b)
bit_xor_zero_below zero a b p q =
    let e : a ≡ 0 = omega arith in
    let f : b ≡ 0 = omega arith in rw (e, f) ((λ _. refl), (λ _. refl))
bit_xor_zero_below (suc n) a b p q = ground (
  arith,
  bit_xor_step a b,
  bit_xor_zero_below n (a / 2) (b / 2) (omega arith) (omega arith),
  differ_digits (a % 2) (b % 2) (omega arith) (omega arith),
)

pub bit_xor-eq-zero_iff : (a b : ℕ) → (bit_xor a b ≡ 0) ↔ (a ≡ b)
bit_xor-eq-zero_iff a b = bit_xor_zero_below (max a b) a b (omega arith) (omega arith)

-- Shifting both numbers by `d` places makes them equal exactly when `d` places hold their
-- exclusive or.
pub bit_xor-lt_iff : (d a b : ℕ) → (bit_xor a b < 2 ^ d) ↔ (a / 2 ^ d ≡ b / 2 ^ d)
bit_xor-lt_iff zero a b =
    rw (div_pow_zero a, div_pow_zero b)
      (
        (λ h. (bit_xor-eq-zero_iff a b).0 (omega arith)),
        (λ h. omega (arith, (bit_xor-eq-zero_iff a b).1 h)),
      )
bit_xor-lt_iff (suc d) a b =
    rw (← half_div_pow a d, ← half_div_pow b d)
      (
        (λ h. (bit_xor-lt_iff d (a / 2) (b / 2)).0 (halved h)),
        (λ h. doubled ((bit_xor-lt_iff d (a / 2) (b / 2)).1 h)),
      )
  where
    halved : bit_xor a b < 2 ^ suc d → bit_xor (a / 2) (b / 2) < 2 ^ d
    halved h = omega (arith, pow_double d, bit_xor_step a b)

    doubled : bit_xor (a / 2) (b / 2) < 2 ^ d → bit_xor a b < 2 ^ suc d
    doubled h = ground (
      arith,
      pow_double d,
      bit_xor_step a b,
      differ_digits (a % 2) (b % 2) (omega arith) (omega arith),
    )
