-- ===== src/Address/Family.antt =====
-- `children`, `parent` and `sibling` against one another.
use incrementalmerkletree.Prelude.{
  ℕ, zero, suc, ◌+◌, ◌-◌, ◌*◌, ◌^◌, ◌≤◌, ◌<◌, ◌≡◌, arith, some, none, pow_pos, pow_double, ap, true,
}
use incrementalmerkletree.Prelude.Bits.{bit_xor-one, bit_and-one}
use incrementalmerkletree.Address.{
  Address, position_range_start, position_range_end, children, parent, sibling, is_left_child,
  is_right_child,
}
use incrementalmerkletree.Address.Shape.{Fits, start_eq, end_eq}

abbrev pub left_of : Address → Address
left_of a = record { level = a.level - 1; index = 2 * a.index }

abbrev pub right_of : Address → Address
right_of a = record { level = a.level - 1; index = 2 * a.index + 1 }

pow_pred : (k : ℕ) → 0 < k → 2 ^ k ≡ 2 * 2 ^ (k - 1)
pow_pred zero h = absurd (omega arith)
pow_pred (suc k) h = let e : suc k - 1 ≡ k = omega arith in rw e (pow_double k)

-- The doubled index still fits 64 bits above the leaves.
double-lt : (a : Address) → Fits a → 0 < a.level → 2 * a.index + 1 < 2 ^ 64
double-lt a h pos = grind (arith, h.leaves, pow_pred a.level pos, pow_pos (a.level - 1))

pub children_eq : (a : Address) → Fits a → 0 < a.level → children a ≡ some (left_of a, right_of a)
unfolding children
children_eq a h pos = ground (arith, double-lt a h pos)

pub children_leaf : (a : Address) → a.level ≡ 0 → children a ≡ none
unfolding children
children_leaf a h = ground arith

pub left-Fits : (a : Address) → Fits a → 0 < a.level → Fits (left_of a)
left-Fits a h pos = record {
  levels = omega (arith, h.levels);
  leaves = omega (
    arith,
    h.leaves,
    pow_pred a.level pos,
    ap (λ (t : ℕ). (a.index + 1) * t) (pow_pred a.level pos),
    pow_pos (a.level - 1),
  );
}

pub right-Fits : (a : Address) → Fits a → 0 < a.level → Fits (right_of a)
right-Fits a h pos = record {
  levels = omega (arith, h.levels);
  leaves = omega (arith, h.leaves, ap (λ (t : ℕ). (a.index + 1) * t) (pow_pred a.level pos));
}

pub start-left :
    (a : Address) → Fits a → 0 < a.level → position_range_start (left_of a) ≡ position_range_start a
start-left a h pos =
    rw (start_eq (left_of a) (left-Fits a h pos), start_eq a h)
      (omega (arith, ap (λ (t : ℕ). a.index * t) (pow_pred a.level pos)))

pub end-left :
    (a : Address)
    → Fits a
    → 0 < a.level
    → position_range_end (left_of a) ≡ position_range_start (right_of a)
end-left a h pos =
    rw (end_eq (left_of a) (left-Fits a h pos), start_eq (right_of a) (right-Fits a h pos))
      (omega arith)

pub end-right :
    (a : Address) → Fits a → 0 < a.level → position_range_end (right_of a) ≡ position_range_end a
end-right a h pos =
    rw (end_eq (right_of a) (right-Fits a h pos), end_eq a h)
      (omega (arith, ap (λ (t : ℕ). (a.index + 1) * t) (pow_pred a.level pos)))

pub left_within :
    (a : Address) → Fits a → 0 < a.level → position_range_end (left_of a) ≤ position_range_end a
left_within a fits pos = omega (
  arith,
  end-left a fits pos,
  end-right a fits pos,
  start_eq (right_of a) (right-Fits a fits pos),
  end_eq (right_of a) (right-Fits a fits pos),
)

pub right_within :
    (a : Address)
    → Fits a
    → 0 < a.level
    → position_range_start a ≤ position_range_start (right_of a)
right_within a fits pos = omega (
  arith,
  start-left a fits pos,
  start_eq (left_of a) (left-Fits a fits pos),
  start_eq (right_of a) (right-Fits a fits pos),
  pow_pos (a.level - 1),
)

pub parent-left : (a : Address) → a.level < 64 → 0 < a.level → parent (left_of a) ≡ a
unfolding parent
parent-left a h pos = ground arith

pub parent-right : (a : Address) → a.level < 64 → 0 < a.level → parent (right_of a) ≡ a
unfolding parent
parent-right a h pos = ground arith

pub sibling-left : (a : Address) → sibling (left_of a) ≡ right_of a
unfolding sibling
sibling-left a = ground (arith, bit_xor-one (2 * a.index))

pub sibling-right : (a : Address) → sibling (right_of a) ≡ left_of a
unfolding sibling
sibling-right a = ground (arith, bit_xor-one (2 * a.index + 1))

-- An address of 64 bits above the leaves has two children: each is the other's sibling, one is
-- a left and one a right child, the address is the parent of both, and they split its leaves
-- in two.
pub children_lem :
    (a : Address)
    → Fits a
    → 0 < a.level
    → (l : Address) × (r : Address) × (children a ≡ some (l, r))
      × ((parent l ≡ a) × (parent r ≡ a))
      × ((sibling l ≡ r) × (sibling r ≡ l))
      × ((is_left_child l ≡ true) × (is_right_child r ≡ true))
      × ((position_range_start l ≡ position_range_start a)
          × (position_range_end l ≡ position_range_start r)
          × (position_range_end r ≡ position_range_end a))
children_lem a h pos = (
  left_of a,
  right_of a,
  children_eq a h pos,
  (parent-left a h.levels pos, parent-right a h.levels pos),
  (sibling-left a, sibling-right a),
  (
    unfold is_left_child in ground (arith, bit_and-one (2 * a.index)),
    unfold is_right_child in ground (arith, bit_and-one (2 * a.index + 1)),
  ),
  (start-left a h pos, end-left a h pos, end-right a h pos),
)
