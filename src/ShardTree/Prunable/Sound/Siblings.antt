-- ===== src/ShardTree/Prunable/Sound/Siblings.antt =====
-- Siblings on a path, one level more at a time, and the ranges of a parent of two leaves.
use native.Mathlib.Nat.{mod-eq_of_lt}
use incrementalmerkletree.Prelude.{
  ℕ, zero, suc, ◌+◌, ◌-◌, ◌*◌, ◌/◌, ◌%◌, ◌^◌, ◌≤◌, ◌<◌, ◌≡◌, arith, leb, ltb, ap, ap₂, sym, ◌∙◌,
  true, false, [], ◌∷◌, ◌++◌, ◌==◌, div_pow_zero, half_div_pow,
}
use incrementalmerkletree.Position.{Position, is_right_child}
use incrementalmerkletree.Position
use incrementalmerkletree.Address.{Address, position_range_start, position_range_end}
use incrementalmerkletree.Address.Shape.{Fits, start_eq, end_eq}
use incrementalmerkletree.Address.Family.{right_of, right-Fits}
use incrementalmerkletree.Hashable.{Hashable}
use incrementalmerkletree.Hashable.Node.{node}
use incrementalmerkletree.Hashable.Path.{siblings, sibling_node}

pub one_level : {n : ℕ} → ltb 1 n ≡ false → 0 < n → n ≡ 1
one_level low pos = ground arith

pub ltb-false : (a b : ℕ) → ltb a b ≡ false → b ≤ a
ltb-false a b h = ground arith

pub leb-false : (a b : ℕ) → leb a b ≡ false → b < a
leb-false a b h = ground arith

pub add_one : (p : ℕ) → p + 1 < 2 ^ 64 → Position.add p 1 ≡ p + 1
unfolding Position.add
add_one p lt = mod-eq_of_lt lt

-- The ranges at level 1.
pub start_one : (a : Address) → Fits a → a.level ≡ 1 → position_range_start a ≡ 2 * a.index
start_one a fits one = omega (arith, start_eq a fits, ap (λ k. a.index * 2 ^ k) one)

pub end_one : (a : Address) → Fits a → a.level ≡ 1 → position_range_end a ≡ 2 * a.index + 2
end_one a fits one = omega (arith, end_eq a fits, ap (λ k. (a.index + 1) * 2 ^ k) one)

pub middle_one :
    (a : Address) → Fits a → a.level ≡ 1 → position_range_start (right_of a) ≡ 2 * a.index + 1
middle_one a fits one = omega (
  arith,
  start_eq (right_of a) (right-Fits a fits (omega arith)),
  ap (λ k. (2 * a.index + 1) * 2 ^ (k - 1)) one,
)

module _ {ℓ} {H : Type ℓ} ⦃h : Hashable H⦄ where
  -- The path of one more level ends in the sibling at that level.
  pub siblings_snoc :
      (g : ℕ → H) (n l q : ℕ)
      → siblings g (suc n) l q ≡ siblings g n l q ++ sibling_node g (l + n) (q / 2 ^ n) ∷ []
  unfolding siblings
  siblings_snoc g zero l q =
      ap₂ (λ m i. sibling_node g m i ∷ []) (omega arith) (sym (div_pow_zero q))
  siblings_snoc g (suc n) l q =
      ap (λ es. sibling_node g l q ∷ es)
        (siblings_snoc g n (suc l) (q / 2)
          ∙ ap (λ v. siblings g n (suc l) (q / 2) ++ v ∷ [])
              (ap₂ (sibling_node g) (omega arith) (half_div_pow q n)))

  pub sibling_even : (g : ℕ → H) (l q i : ℕ) → q ≡ 2 * i → sibling_node g l q ≡ node g l (2 * i + 1)
  sibling_even g l q i even =
      let test : (q % 2 == 1) ≡ false = ground arith in rw test (ap (node g l) (omega arith))

  pub sibling_odd : (g : ℕ → H) (l q i : ℕ) → q ≡ 2 * i + 1 → sibling_node g l q ≡ node g l (2 * i)
  sibling_odd g l q i odd =
      let test : (q % 2 == 1) ≡ true = ground arith in rw test (ap (node g l) (omega arith))
