-- ===== src/ShardTree/Prunable/Sound/Insert.antt =====
-- The recursion of `insert_subtree` on trees that stand for the same leaves.
use incrementalmerkletree.Prelude.{
  ℕ, ◌-◌, ◌≡◌, ◌⊎◌, ◌↔◌, refl, arith, some, none, ap, sym, ◌∙◌, Bool, true, false, Bool-cases, inl,
  inr, ok, List, [], >>?-ok, >>=-some, bit_or, bit_and, ◌&&◌, fmap, map_ok, map_err, subst,
  elim-true, elim-false,
}
use incrementalmerkletree.Address.{Address, contains, address_eq}
use incrementalmerkletree.Address.Shape.{Fits}
use incrementalmerkletree.Address.Descent.{address_eq_iff, level-lt, contains-right_of}
use incrementalmerkletree.Address.Family.{left_of, right_of, left-Fits, right-Fits, children_eq}
use incrementalmerkletree.Hashable.{Hashable}
use incrementalmerkletree.ShardTree.Tree.{parent, leaf, nil, is_nil}
use incrementalmerkletree.ShardTree.Flags.{RetentionFlags, difference, reference}
use incrementalmerkletree.ShardTree.Prunable.{PrunableTree, Eq, has_computable_root, unite}
use incrementalmerkletree.ShardTree.Prunable.Located.{LocatedPrunableTree}
use incrementalmerkletree.ShardTree.Prunable.Located.Insert.{
  IncompleteAt, replacement, insert_at_leaf, insert_over_leaf, insert_into, insert_go,
  from_merge_error,
}
use incrementalmerkletree.ShardTree.Prunable.Sound.{value, IsSound, unite-IsSound}
use incrementalmerkletree.ShardTree.Prunable.Sound.Marked.{
  HasMarked, is_marked-over, leaf_above, only_left, only_right, in_left, in_right, unite-HasMarked,
}
use incrementalmerkletree.ShardTree.Prunable.Sound.Merge.{merge_checked-IsSound}
use incrementalmerkletree.ShardTree.Prunable.Sound.Extend.{replacement-Carries}

module _ {ℓ} {H : Type ℓ} ⦃h : Hashable H⦄ ⦃e : Eq H⦄ (f : ℕ → H) (q : ℕ) where
  -- A tree at the address that stands for the leaves, with the marked leaves of another one
  -- there and those of the node.
  abbrev Joins : Address → PrunableTree H → LocatedPrunableTree H → PrunableTree H → Type ℓ
  Joins a t node m =
      IsSound f a m × (HasMarked q a m ↔ (HasMarked q a t ⊎ HasMarked q node.root_addr node.root))

  leaf_over :
      (a : Address) (v w : H) (x y : RetentionFlags)
      → HasMarked q a
          (leaf (v, bit_or (difference (bit_or x y) reference) (bit_and (bit_and reference x) y)))
        ↔ (HasMarked q a (leaf (v, x)) ⊎ HasMarked q a (leaf (w, y)))
  leaf_over a v w x y = let m = is_marked-over x y in ground arith

  -- A tree at the same address.
  joins_at :
      (a : Address) (t : PrunableTree H) (node : LocatedPrunableTree H) (m : PrunableTree H)
      → a ≡ node.root_addr
      → HasMarked q a m ↔ (HasMarked q a t ⊎ HasMarked q a node.root)
      → HasMarked q a m ↔ (HasMarked q a t ⊎ HasMarked q node.root_addr node.root)
  joins_at a t node m same kept =
      subst (λ b. HasMarked q a m ↔ (HasMarked q a t ⊎ HasMarked q b node.root)) same kept

  -- A subtree of the same address as the leaf.
  insert_over_leaf-IsSound :
      (a : Address) (v : H) (flags : RetentionFlags) (t : PrunableTree H)
      → v ≡ value f a
      → is_nil t ≡ false
      → IsSound f a t
      → (m : PrunableTree H) × (insert_over_leaf a v flags t ≡ ok (m, []))
        × IsSound f a m
        × (HasMarked q a m ↔ (HasMarked q a (leaf (v, flags)) ⊎ HasMarked q a t))
  unfolding insert_over_leaf
  insert_over_leaf-IsSound a v flags nil is_value there s =
      let bad : true ≡ false = unfold is_nil in there in absurd cc
  insert_over_leaf-IsSound a v flags (leaf (v0, ret0)) is_value there s = (
    leaf (
      v,
      bit_or (difference (bit_or flags ret0) reference) (bit_and (bit_and reference flags) ret0),
    ),
    rw ((e.beq_iff v0 v).1 (s ∙ sym is_value)) refl,
    is_value,
    leaf_over a v v0 flags ret0,
  )
  insert_over_leaf-IsSound a v flags (parent (some w) l r) is_value there s = (
    parent (some w) l r,
    refl,
    s,
    only_right (leaf_above q a (v, flags) s.0) ((λ m. m), (λ m. m)),
  )
  insert_over_leaf-IsSound a v flags (parent none l r) is_value there s =
      let kept = only_right (leaf_above q a (v, flags) s.0) ((λ m. m), (λ m. m)) in
      elim (Bool-cases (has_computable_root l && has_computable_root r)) [
        | inl known ↦ (parent none l r, rw known refl, s, kept)
        | inr unknown ↦ (parent (some v) l r, rw unknown refl, (s.0, is_value, s.2, s.3), kept)
      ]

  -- Where a leaf stands: a subtree of the same leaves agrees with its value.
  insert_at_leaf-Joins :
      (a : Address) (v : H) (flags : RetentionFlags) (node : LocatedPrunableTree H)
      (required : Bool)
      → Fits a
      → contains a node.root_addr ≡ true
      → v ≡ value f a
      → is_nil node.root ≡ false
      → IsSound f node.root_addr node.root
      → (t : PrunableTree H) × (found : List IncompleteAt) × (insert_at_leaf a v flags node required
          ≡ ok (t, found))
        × Joins a (leaf (v, flags)) node t
  unfolding insert_at_leaf
  insert_at_leaf-Joins a v flags node required fits inside is_value there s =
      elim (Bool-cases (address_eq a node.root_addr)) [
        | inl same ↦
            let here = (address_eq_iff a node.root_addr).0 same in
            let (t, inserted, sound, kept) =
              insert_over_leaf-IsSound a v flags node.root is_value there
                (subst (λ b. IsSound f b node.root) (sym here) s) in
            (t, [], rw same inserted, (sound, joins_at a (leaf (v, flags)) node t here kept))
        | inr other ↦
            let (sound, kept) =
              replacement-Carries f q a required (some v) node fits inside is_value s in
            let below = level-lt a node.root_addr fits inside other in
            (
              (replacement a required (some v) node).0,
              (replacement a required (some v) node).1,
              rw other refl,
              (sound, only_right (leaf_above q a (v, flags) (omega (arith, below))) kept),
            )
      ]

  insert_into-Joins :
      (a : Address) (t : PrunableTree H) (node : LocatedPrunableTree H) (required : Bool)
      → Fits a
      → contains a node.root_addr ≡ true
      → is_nil node.root ≡ false
      → IsSound f a t
      → IsSound f node.root_addr node.root
      → (m : PrunableTree H) × (found : List IncompleteAt) × (insert_into a t node required
          ≡ some (ok (m, found)))
        × Joins a t node m
  unfolding insert_into
  insert_into-Joins a nil node required fits inside there st s =
      let (sound, kept) = replacement-Carries f q a required none node fits inside tt s in
      (
        (replacement a required none node).0,
        (replacement a required none node).1,
        refl,
        (sound, only_right (λ m. m) kept),
      )
  insert_into-Joins a (leaf (v, flags)) node required fits inside there st s =
      let (t, found, eq, joined) =
        insert_at_leaf-Joins a v flags node required fits inside st there s in
      (t, found, ap some eq, joined)
  insert_into-Joins a (parent ann l r) node required fits inside there st s =
      elim (Bool-cases (address_eq a node.root_addr)) [
        | inl same ↦
            let here = (address_eq_iff a node.root_addr).0 same in
            let (t, merged, sound, kept) =
              merge_checked-IsSound f q a (parent ann l r) node.root fits st
                (subst (λ b. IsSound f b node.root) (sym here) s) in
            (
              t,
              [],
              elim-true same _ _
                  ∙ ap (fmap (λ m. map_ok (λ t. (t, [])) (map_err from_merge_error m))) merged,
              (sound, joins_at a (parent ann l r) node t here kept),
            )
        | inr other ↦ elim (Bool-cases (contains (left_of a) node.root_addr)) [
          | inl left ↦
              let (t, found, inserted, (sound, kept)) =
                insert_into-Joins (left_of a) l node required (left-Fits a fits st.0) left there
                  st.2 s in
              (
                unite (a.level - 1) ann t r,
                found,
                elim-false other _ _
                    ∙ >>=-some (children_eq a fits st.0) _
                    ∙ elim-true left _ _
                    ∙ >>?-ok inserted _,
                (
                  unite-IsSound f a ann t r st.0 st.1 sound st.3,
                  in_left (unite-HasMarked q a ann t r st.0) kept,
                ),
              )
          | inr not_left ↦
              let right = contains-right_of a node.root_addr fits st.0 inside other not_left in
              let (t, found, inserted, (sound, kept)) =
                insert_into-Joins (right_of a) r node required (right-Fits a fits st.0) right there
                  st.3 s in
              (
                unite (a.level - 1) ann l t,
                found,
                elim-false other _ _
                    ∙ >>=-some (children_eq a fits st.0) _
                    ∙ elim-false not_left _ _
                    ∙ >>?-ok inserted _,
                (
                  unite-IsSound f a ann l t st.0 st.1 st.2 sound,
                  in_right (unite-HasMarked q a ann l t st.0) kept,
                ),
              )
        ]
      ]

  empty_unmarked : (a : Address) (t : PrunableTree H) → is_nil t ≡ true → HasMarked q a t → ⊥
  unfolding is_nil
  empty_unmarked a nil e m = m
  empty_unmarked a (leaf v) e m = absurd cc
  empty_unmarked a (parent ann l r) e m = absurd cc

  -- Inserting a tree at the address of another one or below it, where both stand for the same
  -- leaves and addresses have 64 bits, neither fails nor panics, and gives a tree that stands
  -- for these leaves, in which a leaf of level 0 is marked at exactly the positions where one
  -- of the two trees has a marked one.
  pub insert_go-IsSound :
      (a : Address) (t : PrunableTree H) (node : LocatedPrunableTree H) (required : Bool)
      → Fits a
      → contains a node.root_addr ≡ true
      → IsSound f a t
      → IsSound f node.root_addr node.root
      → (m : PrunableTree H) × (found : List IncompleteAt) × (insert_go a t node required
          ≡ some (ok (m, found)))
        × IsSound f a m
        × (HasMarked q a m ↔ (HasMarked q a t ⊎ HasMarked q node.root_addr node.root))
  unfolding insert_go
  insert_go-IsSound a t node required fits inside st s = elim (Bool-cases (is_nil node.root)) [
    | inl empty ↦ (
      t,
      [],
      rw empty refl,
      st,
      only_left (empty_unmarked node.root_addr node.root empty) ((λ m. m), (λ m. m)),
    )
    | inr there ↦
        let (m, found, inserted, joined) =
          insert_into-Joins a t node required fits inside there st s in
        (m, found, rw there inserted, joined.0, joined.1)
  ]
