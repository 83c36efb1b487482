-- ===== src/Address/Incomplete.antt =====
-- Lemmas on `Address::current_incomplete` of incrementalmerkletree/src/lib.rs and its loop.
use native.Mathlib.Nat.{mul-le-mul_right}
use incrementalmerkletree.Prelude.{
  ℕ, zero, suc, ◌+◌, ◌-◌, ◌*◌, ◌/◌, ◌%◌, ◌^◌, ◌≤◌, ◌<◌, ◌≡◌, refl, arith, some, pow_pos, pow_double,
  ap, true, bit_and, u8, Bool-cases, inl, inr, ◌==◌, pow_add, pow_mono, lt_or_le,
}
use incrementalmerkletree.Prelude.Bits.{bit_and-one}
use incrementalmerkletree.Address.{
  Address, incomplete_from, current_incomplete, is_left_child, contains, position_range_end,
}
use incrementalmerkletree.Address.Shape.{InTree, InTree-Fits, end_eq, shifted_iff}
use incrementalmerkletree.Address.Containment.{contains_iff}

-- What the loop returns: the node `n` levels up whose block of `2 ^ n` ends at `index`.
pub record IsRaised (level index n : ℕ) (r : Address) : Type 0 where
  pub height : r.level ≡ level + n
  pub block : (r.index + 1) * 2 ^ n ≡ index + 1
  pub even : r.index % 2 ≡ 0

raise_odd :
    (level index n : ℕ) (r : Address)
    → level < 255
    → index % 2 ≡ 1
    → IsRaised (u8 (level + 1)) (index / 2) n r
    → IsRaised level index (suc n) r
raise_odd level index n r room odd h = record {
  height = omega (arith, h.height);
  block = omega (arith, h.block, ap (λ (t : ℕ). (r.index + 1) * t) (pow_double n));
  even = h.even;
}

-- With one round more than the digits of the index, the loop returns.
pub incomplete_from_total :
    (fuel level index : ℕ)
    → index < 2 ^ fuel
    → level + fuel < 256
    → (n : ℕ) × (r : Address) × (n ≤ fuel)
      × (incomplete_from (suc fuel) level index ≡ some r)
      × IsRaised level index n r
unfolding incomplete_from
incomplete_from_total zero level index h room =
    let e : index ≡ 0 = omega arith in
    rw e (
      0,
      record { level = level; index = 0 },
      omega arith,
      refl,
      record { height = omega arith; block = omega arith; even = omega arith },
    )
incomplete_from_total (suc fuel) level index h room = elim (Bool-cases (bit_and index 1 == 1)) [
  | inl odd ↦
      let (n, r, le, ends, raised) =
        incomplete_from_total fuel (u8 (level + 1)) (index / 2) (omega (arith, pow_double fuel))
          (omega arith) in
      (
        suc n,
        r,
        omega arith,
        rw (odd, incomplete_from) ends,
        raise_odd level index n r (omega arith) (ground (arith, bit_and-one index)) raised,
      )
  | inr even ↦ (
    0,
    record { level = level; index = index },
    omega arith,
    rw (even, incomplete_from) refl,
    record { height = omega arith; block = omega arith; even = ground (arith, bit_and-one index) },
  )
]

module _ (height : ℕ) (a : Address) (n : ℕ) (r : Address) (h : height < 64) (t : InTree height a)
    (raised : IsRaised a.level a.index n r) where
  steps-le : n ≤ height - a.level
  steps-le = elim (lt_or_le (height - a.level) n) [
    | inl lt ↦ absurd (
        omega (
          arith,
          raised.block,
          t.within,
          pow_mono (suc (height - a.level)) n lt,
          pow_double (height - a.level),
          mul-le-mul_right {m = 1} {n = r.index + 1} (2 ^ n) (omega arith),
        ))
    | inr le ↦ le
  ]

  raised-levels : r.level < 64
  raised-levels = omega (arith, raised.height, steps-le, t.below)

  raised_leaves : (r.index + 1) * 2 ^ r.level ≡ (a.index + 1) * 2 ^ a.level
  raised_leaves =
      rw (raised.height, pow_add a.level n)
        (omega (arith, ap (λ (t : ℕ). t * 2 ^ a.level) raised.block))

  raised-contains : contains r a ≡ true
  raised-contains =
      let gap : r.level - a.level ≡ n = omega (arith, raised.height) in
      (contains_iff r a raised-levels).1 (
        omega (arith, raised.height),
        rw gap (
            (shifted_iff r.index a.index n).1
              (omega (arith, raised.block, pow_pos n), omega (arith, raised.block))),
      )

  raised-end : position_range_end r ≡ position_range_end a
  raised-end =
      let fa = InTree-Fits height a h t in
      rw
        (
          end_eq r (record { levels = raised-levels; leaves = rw raised_leaves fa.leaves }),
          end_eq a fa,
        )
        raised_leaves

  raised-left : is_left_child r ≡ true
  unfolding is_left_child
  raised-left = ground (arith, bit_and-one r.index, raised.even)

-- For an address of a tree of fewer than 64 levels, current_incomplete returns a left child
-- that contains the address and whose leaves end where those of the address end.
pub current_incomplete_total :
    (height : ℕ) (a : Address)
    → height < 64
    → InTree height a
    → (r : Address) × (current_incomplete a ≡ some r)
      × (is_left_child r ≡ true)
      × (contains r a ≡ true)
      × (position_range_end r ≡ position_range_end a)
unfolding current_incomplete
current_incomplete_total height a h t =
    let (n, r, le, ends, raised) =
      incomplete_from_total 64 a.level a.index
        (omega (arith, t.within, pow_mono (height - a.level) 64 (omega arith)))
        (omega (arith, t.below)) in
    (
      r,
      ends,
      raised-left height a n r h t raised,
      raised-contains height a n r h t raised,
      raised-end height a n r h t raised,
    )
