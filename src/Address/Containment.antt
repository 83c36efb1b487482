-- ===== src/Address/Containment.antt =====
-- `is_ancestor_of` and `contains` of an address, against ranges of leaves.
use incrementalmerkletree.Prelude.{
  suc, ◌+◌, ◌-◌, ◌*◌, ◌/◌, ◌^◌, ◌≤◌, ◌<◌, ◌≡◌, arith, true, ◌↔◌, pow_pos, pow_mono, pow_double,
  shr-lt, lt_or_le, inl, inr, div_pow_zero, subst,
}
use incrementalmerkletree.Address.{Address, position_range_start, position_range_end, contains}
use incrementalmerkletree.Address.Shape.{Fits, start_eq, end_eq, nested_iff}

-- The test that the code makes, as one division.
pub contains_iff :
    (a b : Address)
    → a.level < 64
    → (contains a b ≡ true) ↔ ((b.level ≤ a.level) × (b.index / 2 ^ (a.level - b.level) ≡ a.index))
unfolding contains
contains_iff a b h = ground (arith, shr-lt b.index (a.level - b.level) (omega arith), no_shift)
  where
    no_shift : a.level ≡ b.level → b.index / 2 ^ (a.level - b.level) ≡ b.index
    no_shift e = let z : a.level - b.level ≡ 0 = omega arith in rw z (div_pow_zero b.index)

-- A smaller level follows from the inclusion of the leaves.
level-le_of_nested :
    (a b : Address)
    → a.index * 2 ^ a.level ≤ b.index * 2 ^ b.level
    → (b.index + 1) * 2 ^ b.level ≤ (a.index + 1) * 2 ^ a.level
    → b.level ≤ a.level
level-le_of_nested a b lo hi = elim (lt_or_le a.level b.level) [
  | inl lt ↦
      absurd (omega (arith, pow_mono (suc a.level) b.level lt, pow_double a.level, pow_pos a.level))
  | inr le ↦ le
]

nested_at :
    (a b : Address)
    → b.level ≤ a.level
    → (b.index / 2 ^ (a.level - b.level) ≡ a.index) ↔ (
        (a.index * 2 ^ a.level ≤ b.index * 2 ^ b.level)
        × ((b.index + 1) * 2 ^ b.level ≤ (a.index + 1) * 2 ^ a.level))
nested_at a b h =
    subst
      (λ t. (b.index / 2 ^ (a.level - b.level) ≡ a.index) ↔ (
        (a.index * 2 ^ t ≤ b.index * 2 ^ b.level)
        × ((b.index + 1) * 2 ^ b.level ≤ (a.index + 1) * 2 ^ t)))
      (omega arith) (nested_iff a.index b.index (a.level - b.level) b.level)

-- For two addresses of 64 bits, one contains the other exactly when the range of its leaves
-- includes the other's.
pub contains-range :
    (a b : Address)
    → Fits a
    → Fits b
    → (contains a b ≡ true) ↔ (
        (position_range_start a ≤ position_range_start b)
        × (position_range_end b ≤ position_range_end a))
contains-range a b fa fb = rw (start_eq a fa, start_eq b fb, end_eq a fa, end_eq b fb) (there, back)
  where
    there :
        contains a b ≡ true
        → (a.index * 2 ^ a.level ≤ b.index * 2 ^ b.level)
          × ((b.index + 1) * 2 ^ b.level ≤ (a.index + 1) * 2 ^ a.level)
    there e = let (le, shifted) = (contains_iff a b fa.levels).0 e in (nested_at a b le).0 shifted

    back :
        (a.index * 2 ^ a.level ≤ b.index * 2 ^ b.level)
          × ((b.index + 1) * 2 ^ b.level ≤ (a.index + 1) * 2 ^ a.level)
        → contains a b ≡ true
    back (lo, hi) =
        let le = level-le_of_nested a b lo hi in
        (contains_iff a b fa.levels).1 (le, (nested_at a b le).1 (lo, hi))
