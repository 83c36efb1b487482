-- ===== src/Address/Ancestor.antt =====
-- Lemmas on `Address::common_ancestor` of incrementalmerkletree/src/lib.rs.
use incrementalmerkletree.Prelude.{
  ℕ, ◌+◌, ◌-◌, ◌/◌, ◌^◌, ◌≤◌, ◌<◌, ◌≡◌, refl, arith, pow_pos, ◌∙◌, sym, ap, true, bit_xor,
  leading_zeros, bits_used, lt-pow-bits_used, bits_used-le, bits_used-le_of_lt, max, pow_add,
  pow_mono, div_pow_add, u8, shr-lt, lt_or_le, inl, inr, le→leb, lt→leb,
}
use incrementalmerkletree.Prelude.Bits.{bit_xor-lt_iff}
use incrementalmerkletree.Address.{Address, common_ancestor, common_ancestor_of, contains}
use incrementalmerkletree.Address.Shape.{InTree}
use native.Mathlib.Nat.{div-eq_of_lt, div-lt_iff_lt-mul}
use incrementalmerkletree.Address.Containment.{contains_iff}

xor-lt : (x y k : ℕ) → x < 2 ^ k → y < 2 ^ k → bit_xor x y < 2 ^ k
xor-lt x y k hx hy = (bit_xor-lt_iff k x y).1 (div-eq_of_lt hx ∙ sym (div-eq_of_lt hy))

module _ (higher lower : Address) (height : ℕ) (h : height < 64) (ord : lower.level ≤ higher.level)
    (th : InTree height higher) (tl : InTree height lower) where
  -- The ancestor of the lower node at the level of the higher one.
  abbrev raised : ℕ
  raised = lower.index / 2 ^ (higher.level - lower.level)

  abbrev delta : ℕ
  delta = bits_used 64 (bit_xor higher.index raised)

  raised-lt : raised < 2 ^ (height - higher.level)
  raised-lt =
      let e : height - higher.level + (higher.level - lower.level) ≡ height - lower.level =
        omega (arith, th.below) in
      (div-lt_iff_lt-mul (pow_pos (higher.level - lower.level))).1
        (rw (← pow_add (height - higher.level) (higher.level - lower.level), e) tl.within)

  delta-le : delta ≤ height - higher.level
  delta-le =
      bits_used-le_of_lt 64 (bit_xor higher.index raised) (height - higher.level)
        (xor-lt higher.index raised (height - higher.level) th.within raised-lt)

  delta_meets : higher.index / 2 ^ delta ≡ raised / 2 ^ delta
  delta_meets = (bit_xor-lt_iff delta higher.index raised).0 (
      lt-pow-bits_used 64 (bit_xor higher.index raised) (
        omega (
          arith,
          xor-lt higher.index raised (height - higher.level) th.within raised-lt,
          pow_mono (height - higher.level) 64 (omega arith),
        )))

  level_delta : u8 (64 - (64 - delta)) ≡ delta
  level_delta = omega (arith, bits_used-le 64 (bit_xor higher.index raised))

  max_shifted : max higher.index raised / 2 ^ delta ≡ higher.index / 2 ^ delta
  max_shifted = elim (lt_or_le higher.index raised) [
    | inl lt ↦ let e : max higher.index raised ≡ raised = omega arith in rw e (sym delta_meets)
    | inr le ↦ let e : max higher.index raised ≡ higher.index = omega arith in rw e refl
  ]

  common_ancestor_of_eq :
      common_ancestor_of higher lower
      ≡ record { level = higher.level + delta; index = higher.index / 2 ^ delta }
  unfolding common_ancestor_of leading_zeros
  common_ancestor_of_eq =
      rw
        (
          shr-lt lower.index (higher.level - lower.level) (omega (arith, th.below)),
          level_delta,
          shr-lt (max higher.index raised) delta (omega (arith, delta-le)),
          max_shifted,
        )
        (ground (arith, delta-le, th.below))

  pub ancestor-InTree : InTree height (common_ancestor_of higher lower)
  ancestor-InTree = rw common_ancestor_of_eq (record {
    below = omega (arith, delta-le, th.below);
    within =
        let e : height - (higher.level + delta) + delta ≡ height - higher.level =
          omega (arith, delta-le) in
        (div-lt_iff_lt-mul (pow_pos delta)).1
          (rw (← pow_add (height - (higher.level + delta)) delta, e) th.within);
  })

  pub ancestor-contains_higher : contains (common_ancestor_of higher lower) higher ≡ true
  ancestor-contains_higher = rw common_ancestor_of_eq (
      (contains_iff _ higher (omega (arith, delta-le, th.below))).1 (
        omega arith,
        let e : higher.level + delta - higher.level ≡ delta = omega arith in rw e refl,
      ))

  pub ancestor-contains_lower : contains (common_ancestor_of higher lower) lower ≡ true
  ancestor-contains_lower = rw common_ancestor_of_eq (
      (contains_iff _ lower (omega (arith, delta-le, th.below))).1 (
        omega arith,
        let e : higher.level + delta - lower.level ≡ higher.level - lower.level + delta =
              omega arith in
            rw (e, ← div_pow_add lower.index (higher.level - lower.level) delta) (sym delta_meets),
      ))

  -- Any node above both is at or above it.
  pub ancestor-least :
      (e : Address)
      → e.level < 64
      → contains e higher ≡ true
      → contains e lower ≡ true
      → contains e (common_ancestor_of higher lower) ≡ true
  ancestor-least e he ch cl =
      let (le, eh) = (contains_iff e higher he).0 ch in
      let (_, el) = (contains_iff e lower he).0 cl in
      let gap : e.level - lower.level ≡ higher.level - lower.level + (e.level - higher.level) =
        omega arith in
      let meets : higher.index / 2 ^ (e.level - higher.level)
          ≡ raised / 2 ^ (e.level - higher.level) =
        eh
        ∙ sym (
            div_pow_add lower.index (higher.level - lower.level) (e.level - higher.level)
            ∙ ap (λ (n : ℕ). lower.index / 2 ^ n) (sym gap)
            ∙ el) in
      let small : delta ≤ e.level - higher.level =
        bits_used-le_of_lt 64 (bit_xor higher.index raised) (e.level - higher.level)
          ((bit_xor-lt_iff (e.level - higher.level) higher.index raised).1 meets) in
      let rest : delta + (e.level - (higher.level + delta)) ≡ e.level - higher.level =
        omega arith in
      rw common_ancestor_of_eq (
        (contains_iff e _ he).1 (
          omega arith,
          div_pow_add higher.index delta (e.level - (higher.level + delta))
              ∙ ap (λ (n : ℕ). higher.index / 2 ^ n) rest
              ∙ eh,
        ))

-- For two addresses of a tree of fewer than 64 levels, common_ancestor is a node of the tree
-- that contains both, and every node of a level below 64 that contains both contains it.
pub common_ancestor-least :
    (height : ℕ) (a b : Address)
    → height < 64
    → InTree height a
    → InTree height b
    → InTree height (common_ancestor a b)
      × (contains (common_ancestor a b) a ≡ true)
      × (contains (common_ancestor a b) b ≡ true)
      × ((e : Address)
          → e.level < 64
          → contains e a ≡ true
          → contains e b ≡ true
          → contains e (common_ancestor a b) ≡ true)
unfolding common_ancestor
common_ancestor-least height a b h ta tb = elim (lt_or_le a.level b.level) [
  | inl lt ↦ rw (lt→leb b.level a.level lt) (
    ancestor-InTree b a height h (omega arith) tb ta,
    ancestor-contains_lower b a height h (omega arith) tb ta,
    ancestor-contains_higher b a height h (omega arith) tb ta,
    (λ e he ca cb. ancestor-least b a height h (omega arith) tb ta e he cb ca),
  )
  | inr le ↦ rw (le→leb b.level a.level le) (
    ancestor-InTree a b height h le ta tb,
    ancestor-contains_higher a b height h le ta tb,
    ancestor-contains_lower a b height h le ta tb,
    (λ e he ca cb. ancestor-least a b height h le ta tb e he ca cb),
  )
]
