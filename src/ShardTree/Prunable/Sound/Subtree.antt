-- ===== src/ShardTree/Prunable/Sound/Subtree.antt =====
-- `subtree` of a located tree that stands for a sequence of leaves.
use incrementalmerkletree.Prelude.{
  ℕ, ◌≡◌, ◌⊎◌, refl, sym, ap, ◌∙◌, Option, some, none, true, false, Bool-cases, inl, inr, subst,
  elim-true, elim-false,
}
use incrementalmerkletree.Address.{Address, contains, address_eq}
use incrementalmerkletree.Address.Shape.{Fits}
use incrementalmerkletree.Address.Descent.{address_eq_iff, contains-right_of}
use incrementalmerkletree.Address.Family.{left_of, right_of, left-Fits, right-Fits, children_eq}
use incrementalmerkletree.Hashable.{Hashable}
use incrementalmerkletree.ShardTree.Tree.{parent, leaf, nil}
use incrementalmerkletree.ShardTree.Located.{subtree_from}
use incrementalmerkletree.ShardTree.Prunable.{PrunableTree}
use incrementalmerkletree.ShardTree.Prunable.Located.{LocatedPrunableTree}
use incrementalmerkletree.ShardTree.Prunable.Sound.{IsSound}

module _ {ℓ} {H : Type ℓ} ⦃h : Hashable H⦄ (f : ℕ → H) where
  abbrev pub found : Address → PrunableTree H → Option (Option (LocatedPrunableTree H))
  found a t = some (some (record { root_addr = a; root = t }))

  -- A part of the tree at an address, or none.
  abbrev pub FoundAt : Address → Option (Option (LocatedPrunableTree H)) → Type ℓ
  FoundAt a o = (o ≡ some none) ⊎ ((t : PrunableTree H) × (o ≡ found a t) × IsSound f a t)

  here :
      (top a : Address) (t : PrunableTree H)
      → address_eq top a ≡ true
      → IsSound f top t
      → (child : PrunableTree H) × (found top t ≡ found a child) × IsSound f a child
  here top a t same s =
      let p = (address_eq_iff top a).0 same in
      (t, ap (λ x. found x t) p, subst (λ x. IsSound f x t) p s)

  pub subtree_from-IsSound :
      (top : Address) (t : PrunableTree H) (a : Address)
      → Fits top
      → contains top a ≡ true
      → IsSound f top t
      → FoundAt a (subtree_from top t a)
  unfolding subtree_from
  subtree_from-IsSound top (leaf (v, flags)) a fits inside s =
      elim (Bool-cases (address_eq top a)) [
        | inl same ↦ rw same (inr (here top a (leaf (v, flags)) same s))
        | inr other ↦ rw other (inl refl)
      ]
  subtree_from-IsSound top nil a fits inside s = elim (Bool-cases (address_eq top a)) [
    | inl same ↦ rw same (inr (here top a nil same s))
    | inr other ↦ rw other (inl refl)
  ]
  subtree_from-IsSound top (parent ann l r) a fits inside s = elim (Bool-cases (address_eq top a)) [
    | inl same ↦
        let (t, e, st) = here top a (parent ann l r) same s in inr (t, elim-true same _ _ ∙ e, st)
    | inr other ↦ elim (Bool-cases (contains (left_of top) a)) [
      | inl left ↦
          subst (FoundAt a)
            (sym (elim-false other _ _ ∙ ap below (children_eq top fits s.0) ∙ elim-true left _ _))
            (subtree_from-IsSound (left_of top) l a (left-Fits top fits s.0) left s.2)
      | inr not_left ↦
          subst (FoundAt a)
            (sym (
              elim-false other _ _ ∙ ap below (children_eq top fits s.0) ∙ elim-false not_left _ _))
            (subtree_from-IsSound (right_of top) r a (right-Fits top fits s.0)
              (contains-right_of top a fits s.0 inside other not_left) s.3)
    ]
  ]
    where
      below : Option (Address × Address) → Option (Option (LocatedPrunableTree H))
      below o = elim o [
        | none ↦ none
        | some (l_addr, r_addr) ↦ elim (contains l_addr a) [
          | true ↦ subtree_from l_addr l a
          | false ↦ subtree_from r_addr r a
        ]
      ]
