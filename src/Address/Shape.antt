-- ===== src/Address/Shape.antt =====
-- Addresses whose leaves are numbered by 64 bits, and the operations on them as plain arithmetic.
use native.Mathlib.Nat.{
  mod-eq_of_lt, div-mul-le_self, lt-div-mul-add, div-eq_of_lt-le, mul-le-mul_right,
  le_of_mul-le-mul_right,
}
use incrementalmerkletree.Prelude.{
  ℕ, suc, ◌+◌, ◌-◌, ◌*◌, ◌/◌, ◌^◌, ◌≤◌, ◌<◌, ◌≡◌, arith, ◌↔◌, pow_pos, pow_add, pow_mono, shl-lt,
  ap,
}
use incrementalmerkletree.Address.{Address, position_range_start, position_range_end}

-- The leaves below the address have positions of 64 bits, and so has the end of their range.
pub record Fits (a : Address) : Type 0 where
  pub levels : a.level < 64
  pub leaves : (a.index + 1) * 2 ^ a.level < 2 ^ 64

pub index-lt : (a : Address) → Fits a → a.index + 1 < 2 ^ 64
index-lt a h = grind (arith, pow_pos a.level, h.leaves)

pub start_eq : (a : Address) → Fits a → position_range_start a ≡ a.index * 2 ^ a.level
unfolding position_range_start
start_eq a h = shl-lt a.index a.level h.levels (omega (arith, h.leaves))

pub end_eq : (a : Address) → Fits a → position_range_end a ≡ (a.index + 1) * 2 ^ a.level
unfolding position_range_end
end_eq a h = rw (mod-eq_of_lt (index-lt a h)) (shl-lt (a.index + 1) a.level h.levels h.leaves)

-- `j` shifted down by `d` places is `i` exactly when `j` lies in the block of `i`.
pub shifted_iff : (i j d : ℕ) → (j / 2 ^ d ≡ i) ↔ ((i * 2 ^ d ≤ j) × (j < (i + 1) * 2 ^ d))
shifted_iff i j d = (there, back)
  where
    there : j / 2 ^ d ≡ i → (i * 2 ^ d ≤ j) × (j < (i + 1) * 2 ^ d)
    there e = (
      rw (← e) (div-mul-le_self j (2 ^ d)),
      rw (← e) (omega (arith, lt-div-mul-add {a = j} {b = 2 ^ d} (pow_pos d))),
    )

    back : (i * 2 ^ d ≤ j) × (j < (i + 1) * 2 ^ d) → j / 2 ^ d ≡ i
    back (lo, hi) = div-eq_of_lt-le (2 ^ d) lo hi

-- The same of blocks that are `2 ^ k` times as large.
pub nested_iff :
    (i j d k : ℕ)
    → (j / 2 ^ d ≡ i) ↔ ((i * 2 ^ (d + k) ≤ j * 2 ^ k) × ((j + 1) * 2 ^ k ≤ (i + 1) * 2 ^ (d + k)))
nested_iff i j d k = rw pow_add (there, back)
  where
    there :
        j / 2 ^ d ≡ i
        → (i * (2 ^ d * 2 ^ k) ≤ j * 2 ^ k) × ((j + 1) * 2 ^ k ≤ (i + 1) * (2 ^ d * 2 ^ k))
    there e =
        let (lo, hi) = (shifted_iff i j d).0 e in
        (omega (arith, mul-le-mul_right (2 ^ k) lo), omega (arith, mul-le-mul_right (2 ^ k) hi))

    back :
        (i * (2 ^ d * 2 ^ k) ≤ j * 2 ^ k) × ((j + 1) * 2 ^ k ≤ (i + 1) * (2 ^ d * 2 ^ k))
        → j / 2 ^ d ≡ i
    back (lo, hi) = (shifted_iff i j d).1 (
      le_of_mul-le-mul_right {m = i * 2 ^ d} {n = j} {k = 2 ^ k} (omega arith) (pow_pos k),
      le_of_mul-le-mul_right {m = suc j} {n = (i + 1) * 2 ^ d} {k = 2 ^ k} (omega arith)
          (pow_pos k),
    )

-- The address of a node of a tree of the given height.
pub record InTree (height : ℕ) (a : Address) : Type 0 where
  pub below : a.level ≤ height
  pub within : a.index < 2 ^ (height - a.level)

pub InTree-Fits : (height : ℕ) (a : Address) → height < 64 → InTree height a → Fits a
InTree-Fits height a h t = record {
  levels = omega (arith, t.below);
  leaves =
      let e : height - a.level + a.level ≡ height = omega (arith, t.below) in
      omega (
        arith,
        mul-le-mul_right (2 ^ a.level) t.within,
        pow_add (height - a.level) a.level,
        ap (λ (n : ℕ). 2 ^ n) e,
        pow_mono height 63 (omega arith),
      );
}
