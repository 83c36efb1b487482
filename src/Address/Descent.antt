-- ===== src/Address/Descent.antt =====
-- Which child of a node contains an address below it.
use incrementalmerkletree.Prelude.{
  suc, ◌-◌, ◌*◌, ◌/◌, ◌^◌, ◌≤◌, ◌<◌, ◌≡◌, ◌↔◌, arith, true, false, ==_iff, div_pow_suc,
  div_pow_zero, ◌∙◌, sym, ap, ap₂, ==_self, lt_or_le, inl, inr,
}
use incrementalmerkletree.Address.{Address, contains, address_eq}
use incrementalmerkletree.Address.Shape.{Fits}
use incrementalmerkletree.Address.Family.{left_of, right_of, left-Fits, right-Fits}
use incrementalmerkletree.Address.Containment.{contains_iff}

pub level-le_of_contains : (a b : Address) → Fits a → contains a b ≡ true → b.level ≤ a.level
level-le_of_contains a b fits e = ((contains_iff a b fits.levels).0 e).0

pub address_eq_iff : (a b : Address) → (address_eq a b ≡ true) ↔ (a ≡ b)
unfolding address_eq
address_eq_iff a b = (
  (λ e.
      let parts : (a.level ≡ b.level) × (a.index ≡ b.index) = grind (arith, ==_iff) in
      ap₂ (λ level index. record { level = level; index = index }) parts.0 parts.1),
  (λ e. rw e (ground (arith, ==_self b.level, ==_self b.index))),
)

pub level-lt :
    (a b : Address) → Fits a → contains a b ≡ true → address_eq a b ≡ false → b.level < a.level
unfolding address_eq
level-lt a b fits c other = ground (arith, (contains_iff a b fits.levels).0 c, div_pow_zero b.index)

-- A node that contains another address has a child that contains it.
pub contains-right_of :
    (a b : Address)
    → Fits a
    → 0 < a.level
    → contains a b ≡ true
    → address_eq a b ≡ false
    → contains (left_of a) b ≡ false
    → contains (right_of a) b ≡ true
contains-right_of a b fits pos c other left =
    let lt = level-lt a b fits c other in
    let inside = (contains_iff a b fits.levels).0 c in
    let up : a.level - b.level ≡ suc (a.level - 1 - b.level) = omega arith in
    let half : b.index / 2 ^ (a.level - 1 - b.level) / 2 ≡ a.index =
      sym (div_pow_suc b.index (a.level - 1 - b.level))
      ∙ ap (λ k. b.index / 2 ^ k) (sym up)
      ∙ inside.1 in
    let not_left = (contains_iff (left_of a) b (left-Fits a fits pos).levels).1 in
    elim (lt_or_le (2 * a.index) (b.index / 2 ^ (a.level - 1 - b.level))) [
      | inl more ↦
          (contains_iff (right_of a) b (right-Fits a fits pos).levels).1 (omega arith, omega arith)
      | inr less ↦
          let absurd_left : contains (left_of a) b ≡ true = not_left (omega arith, omega arith) in
          cc
    ]
