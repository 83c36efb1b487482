-- ===== src/ShardTree/Prunable/Pruned.antt =====
-- The level at which `prune` of shardtree/src/prunable.rs joins two leaves.
use incrementalmerkletree.Prelude.{
  ℕ, ◌-◌, ◌≤◌, ◌<◌, ◌≡◌, refl, arith, some, none, le→leb, lt→leb, le→ltb, ◌∙◌, >>=-some, ap, ok,
  pow_pos,
}
use incrementalmerkletree.Level
use incrementalmerkletree.Address.{Address, position_range_start, position_range_end}
use incrementalmerkletree.Address.Shape.{Fits, start_eq, end_eq}
use incrementalmerkletree.Address.Family.{
  children_eq, left_of, right_of, left-Fits, right-Fits, end-left, end-right,
}
use incrementalmerkletree.Hashable.{Hashable}
use incrementalmerkletree.ShardTree.Tree.{parent, leaf}
use incrementalmerkletree.ShardTree.Flags.{ephemeral, RetentionFlags}
use incrementalmerkletree.ShardTree.Prunable.{PrunableTree, prune, root_hash, parent_root}

range-lt : (a : Address) → Fits a → position_range_start a < position_range_end a
range-lt a fits = rw (start_eq a fits, end_eq a fits) (omega (arith, pow_pos a.level))

module _ {ℓ} {H : Type ℓ} ⦃h : Hashable H⦄ where
  leaf-whole :
      (a : Address) (v : H) (flags : RetentionFlags) (end : ℕ)
      → Fits a
      → position_range_end a ≤ end
      → root_hash (leaf (v, flags)) a end ≡ some (ok v)
  unfolding root_hash
  leaf-whole a v flags end fits le =
      rw
        (
          lt→leb end (position_range_start a) (omega (arith, range-lt a fits)),
          le→leb (position_range_end a) end le,
        )
        refl

  -- Two ephemeral leaves below a parent at an address of 64 bits above the leaves are hashed
  -- by root_hash at their own level, and joined by prune at the level of the parent.
  pub prune-root_hash :
      (a : Address) (v w : H)
      → Fits a
      → 0 < a.level
      → (root_hash
            (parent none (leaf (v, ephemeral)) (leaf (w, ephemeral)))
            a
            (position_range_end a)
          ≡ some (ok (h.combine (a.level - 1) v w)))
        × (t : PrunableTree H) × (prune
              (parent none (leaf (v, ephemeral)) (leaf (w, ephemeral)))
              a.level
            ≡ some t)
        × (root_hash t a (position_range_end a) ≡ some (ok (h.combine a.level v w)))
  unfolding root_hash prune Level.sub
  prune-root_hash a v w fits pos = (
    ap (parent_root a (position_range_end a) none) (
          >>=-some (children_eq a fits pos) _
          ∙ >>=-some
              (leaf-whole (left_of a) v ephemeral (position_range_end a) (left-Fits a fits pos) (
                omega (
                  arith,
                  end-left a fits pos,
                  range-lt (right_of a) (right-Fits a fits pos),
                  end-right a fits pos,
                )))
              _
          ∙ >>=-some
              (leaf-whole (right_of a) w ephemeral (position_range_end a) (right-Fits a fits pos)
                (omega (arith, end-right a fits pos)))
              _)
        ∙ rw (lt→leb (position_range_end a) (position_range_start a) (range-lt a fits)) refl,
    leaf (h.combine a.level v w, ephemeral),
    rw (le→ltb a.level 1 pos) refl,
    leaf-whole a (h.combine a.level v w) ephemeral (position_range_end a) fits (omega arith),
  )
