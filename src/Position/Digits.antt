-- ===== src/Position/Digits.antt =====
-- The operations on a position, in terms of its binary digits.
use native.Mathlib.Nat.{div-add-mod, mod-lt, mod-eq_of_lt, mod-add-mod, mod_self}
use incrementalmerkletree.Prelude.{
  ℕ, zero, suc, ◌+◌, ◌-◌, ◌*◌, ◌/◌, ◌%◌, ◌^◌, ◌≤◌, ◌<◌, ◌≡◌, refl, arith, true, false, ◌↔◌, bit_and,
  shl, shl-lt, shr-lt, leading_zeros, bits_used, bits_used-le, bits_used-le_of_lt, lt-pow-bits_used,
  pow_double, pow_pos, pow_mono, div_pow_suc, half_div_pow, div_pow_zero, length, filter, ◌==◌, inl,
  inr, ap, ap₂, lt_or_le, ◌∙◌, sym,
}
use incrementalmerkletree.Prelude.Bits.{bit_and_step, bit_and-one}
use incrementalmerkletree.Level.{range, iter_to}
use incrementalmerkletree.Position.{
  Position, root_level, is_complete_subtree, past_ommer_count, has_ommer_at, is_right_child, any,
}

-- The number of set digits among the lowest `n`.
abbrev pub ones : ℕ → ℕ → ℕ
ones zero q = 0
ones (suc n) q = q % 2 + ones n (q / 2)

pub root_level_eq : (p : Position) → root_level p ≡ bits_used 64 p
unfolding root_level leading_zeros
root_level_eq p = omega (arith, bits_used-le 64 p)

-- The root level of a position of 64 bits is the height of the smallest tree that has a leaf
-- there.
pub root_level-least : (p : Position) (k : ℕ) → p < 2 ^ 64 → (root_level p ≤ k) ↔ (p < 2 ^ k)
root_level-least p k h = rw root_level_eq (there, (λ lt. bits_used-le_of_lt 64 p k lt))
  where
    there : bits_used 64 p ≤ k → p < 2 ^ k
    there le = omega (arith, lt-pow-bits_used 64 p h, pow_mono (bits_used 64 p) k le)

pub is_right_child_iff : (p : Position) → (is_right_child p ≡ true) ↔ (p % 2 ≡ 1)
unfolding is_right_child
is_right_child_iff p = ground (arith, bit_and-one p)

has_ommer_at_eq : (p : Position) (i : ℕ) → i < 64 → has_ommer_at p i ≡ (p / 2 ^ i % 2 == 1)
unfolding has_ommer_at
has_ommer_at_eq p i h = rw (shr-lt p i h, bit_and-one) refl

count_ones :
    (n a : ℕ) (p : Position)
    → a + n ≤ 64
    → length (filter (has_ommer_at p) (range a n)) ≡ ones n (p / 2 ^ a)
count_ones zero a p h = refl
count_ones (suc n) a p h =
    rw (has_ommer_at_eq p a (omega arith))
      (ground (arith, count_ones n (suc a) p (omega arith), div_pow_suc p a))

past_ommer_count-ones : (p : Position) → past_ommer_count p ≡ ones (root_level p) p
unfolding past_ommer_count iter_to
past_ommer_count-ones p = rw (root_level_eq p) (
    count_ones (bits_used 64 p - 0) 0 p (omega (arith, bits_used-le 64 p))
    ∙ ap₂ ones (omega arith) (div_pow_zero p))

-- Digits beyond the last set one count nothing.
ones_stable : (n m q : ℕ) → q < 2 ^ n → q < 2 ^ m → ones n q ≡ ones m q
ones_stable zero zero q h k = refl
ones_stable zero (suc m) q h k =
    let e : q ≡ 0 = omega arith in
    rw e (omega (arith, ones_stable zero m 0 (omega arith) (omega (arith, pow_pos m))))
ones_stable (suc n) zero q h k =
    let e : q ≡ 0 = omega arith in
    rw e (omega (arith, ones_stable n zero 0 (omega (arith, pow_pos n)) (omega arith)))
ones_stable (suc n) (suc m) q h k =
    omega
      (arith, ones_stable n m (q / 2) (omega (arith, pow_double n)) (omega (arith, pow_double m)))

-- The number of past ommers of a position of 64 bits is the number of set digits among its 64
-- binary digits.
pub past_ommer_count_eq : (p : Position) → p < 2 ^ 64 → past_ommer_count p ≡ ones 64 p
past_ommer_count_eq p h =
    past_ommer_count-ones p
    ∙ ones_stable (root_level p) 64 p ((root_level-least p (root_level p) h).0 (omega arith)) h

-- `p & (1 << l)` keeps digit `l` alone.
bit_and-pow : (l p : ℕ) → bit_and p (2 ^ l) ≡ p / 2 ^ l % 2 * 2 ^ l
bit_and-pow zero p = omega (arith, bit_and-one p)
bit_and-pow (suc l) p =
    let halved : 2 ^ suc l / 2 ≡ 2 ^ l = omega (arith, pow_double l) in
    rw (bit_and_step p (2 ^ suc l), halved, bit_and-pow l (p / 2), half_div_pow p l)
      (omega (arith, pow_double l, ap (λ (t : ℕ). p / 2 ^ suc l % 2 * t) (pow_double l)))

mod_pow_suc : (x n : ℕ) → x % 2 ^ suc n ≡ x / 2 % 2 ^ n * 2 + x % 2
mod_pow_suc x n = omega (
  arith,
  div-add-mod x (2 ^ suc n),
  rw (half_div_pow x n) at (div-add-mod (x / 2) (2 ^ n)),
  ap (λ (t : ℕ). t * (x / 2 ^ suc n)) (pow_double n),
)

digit_clear : (a : ℕ) (p : Position) → a < 64 → (bit_and p (shl 1 a) == 0) ≡ (p / 2 ^ a % 2 == 0)
digit_clear a p h =
    let fits : 1 * 2 ^ a < 2 ^ 64 = omega (arith, pow_mono a 63 (omega arith)) in
    let one : 1 * 2 ^ a ≡ 2 ^ a = omega arith in
    rw (shl-lt 1 a h fits, one, bit_and-pow a p) (ground (arith, pow_pos a, positive))
  where
    positive : p / 2 ^ a % 2 ≡ 1 → p / 2 ^ a % 2 * 2 ^ a ≡ 2 ^ a
    positive e = rw e (omega arith)

complete_from :
    (n a : ℕ) (p : Position)
    → a + n ≤ 64
    → (any (λ l. bit_and p (shl 1 l) == 0) (range a n) ≡ false) ↔ (p / 2 ^ a % 2 ^ n + 1 ≡ 2 ^ n)
complete_from zero a p h = ((λ _. omega arith), (λ _. refl))
complete_from (suc n) a p h = rw (digit_clear a p (omega arith)) (
    ground (
      arith,
      complete_from n (suc a) p (omega arith),
      div_pow_suc p a,
      mod_pow_suc (p / 2 ^ a) n,
      pow_double n,
      mod-lt (p / 2 ^ suc a) {m = 2 ^ n} (pow_pos n),
    ))

-- The leaf at a position completes a subtree of a level, at most 64, exactly when the leaves
-- up to it fill a whole number of such subtrees.
pub is_complete_subtree_iff :
    (p : Position) (l : ℕ) → l ≤ 64 → (is_complete_subtree p l ≡ true) ↔ ((p + 1) % 2 ^ l ≡ 0)
unfolding is_complete_subtree
is_complete_subtree_iff p l h =
    let whole : l - 0 ≡ l = omega arith in
    rw whole (ground (arith, rw (div_pow_zero p) at (complete_from l 0 p (omega arith)), mod_next))
  where
    mod_next : (p % 2 ^ l + 1 ≡ 2 ^ l) ↔ ((p + 1) % 2 ^ l ≡ 0)
    mod_next = elim (lt_or_le (p % 2 ^ l + 1) (2 ^ l)) [
      | inl lt ↦ (
        (λ e. absurd (omega arith)),
        (λ e. absurd (omega (arith, sym (mod-eq_of_lt lt) ∙ mod-add-mod p (2 ^ l) 1 ∙ e))),
      )
      | inr le ↦
          let full : p % 2 ^ l + 1 ≡ 2 ^ l = omega (arith, mod-lt p {m = 2 ^ l} (pow_pos l)) in
          ((λ _. rw (← mod-add-mod, full) (mod_self (2 ^ l))), (λ _. full))
    ]
