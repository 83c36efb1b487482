-- ===== src/ShardTree/Sharded/Checkpoints.antt =====
-- The checkpoints of a `ShardTree` of shardtree/src/lib.rs: `checkpoint`,
-- truncation and `remove_mark`.
use Prim.Native.Nat.{lt, eq, gt}
use incrementalmerkletree.Prelude.{
  ℕ, Option, some, none, [], ◌∷◌, if◌then◌else◌, Bool, true, false, ok, fmap, bit_or,
}
use incrementalmerkletree.Level.{Level}
use incrementalmerkletree.Position.{Position}
use incrementalmerkletree.Address.{Address, children, max_position}
use incrementalmerkletree.Hashable.{Hashable}
use incrementalmerkletree.OrderedMap.{Ord, ℕ-Ord}
use incrementalmerkletree.ShardTree.Tree.{parent, leaf, nil}
use incrementalmerkletree.ShardTree.Flags.{RetentionFlags, checkpoint, marked, is_marked}
use incrementalmerkletree.ShardTree.Located.{value_at_position}
use incrementalmerkletree.ShardTree.Prunable.{PrunableTree, unite}
use incrementalmerkletree.ShardTree.Prunable.Located.{LocatedPrunableTree, truncate_to_position}
use incrementalmerkletree.ShardTree.Prunable.Located.FrontierNodes.{clear_flags}
use incrementalmerkletree.ShardTree.Store.{
  Checkpoint, TreeState, empty, at_position, tree_empty, checkpoint_at, mark_removed,
}
use incrementalmerkletree.ShardTree.Store.Effect.{Effect, return, expect, ◌>>=◌}
use incrementalmerkletree.ShardTree.Store.Interface.{ShardStore}
use incrementalmerkletree.ShardTree.Sharded.{
  ShardTreeError, root_addr, subtree_addr, ask, stored, value_in,
}
use incrementalmerkletree.ShardTree.Sharded.Excess.{prune_excess_checkpoints}

-- `Option` in its derived order, `None` first: the first is at least `Some` of the second.
abbrev pub at_least {ℓ} : {C : Type ℓ} ⦃o : Ord C⦄ → Option C → C → Bool
at_least none id = false
at_least ⦃o = o⦄ (some m) id = elim (o.compare m id) [ lt ↦ false | eq ↦ true | gt ↦ true ]

module _ {ℓ} {H : Type ℓ} ⦃h : Hashable H⦄ where
  -- The tree with the flag `CHECKPOINT` at its rightmost leaf, and the last position of this leaf.
  -- The outer `none` is a panic.
  unfoldable pub flag_rightmost :
      Address → PrunableTree H → Option (Option (PrunableTree H × Position))
  unfolding unite max_position
  flag_rightmost root_addr (parent ann l r) = elim (children root_addr) [
    | none ↦ none
    | some (l_addr, r_addr) ↦ elim (flag_rightmost r_addr r) [
      | none ↦ none
      | some (some (new_right, pos)) ↦ some (some (unite l_addr.level ann l new_right, pos))
      | some none ↦
          fmap (fmap (λ (new_left, pos). (unite l_addr.level ann new_left nil, pos)))
            (flag_rightmost l_addr l)
    ]
  ]
  flag_rightmost root_addr (leaf (v, r)) =
      fmap (λ pos. some (leaf (v, bit_or r checkpoint), pos)) (max_position root_addr)
  flag_rightmost root_addr nil = some none

module _ {ℓ} {S H C : Type ℓ} {E : Type 0} ⦃h : Hashable H⦄ ⦃o : Ord C⦄ (b : ShardStore S H C E)
    (shard_height : Level) where
  abbrev pub flagged :
      Option (LocatedPrunableTree H) → Option (Option (Address × PrunableTree H × Position))
  flagged none = some none
  flagged (some t) =
      fmap (fmap (λ (root, pos). (t.root_addr, root, pos))) (flag_rightmost t.root_addr t.root)

  abbrev pub add_checkpoint_at :
      C → Option (Address × PrunableTree H × Position) → Effect S (ShardTreeError E) (Unit {0})
  add_checkpoint_at id none = stored (b.add_checkpoint id tree_empty)
  add_checkpoint_at id (some (addr, root, pos)) =
      stored (b.put_shard (record { root_addr = addr; root = root })) >>= λ _.
      stored (b.add_checkpoint id (checkpoint_at pos))

  -- The method `checkpoint`.
  unfoldable pub add_tip_checkpoint : ℕ → C → Effect S (ShardTreeError E) Bool
  unfolding flag_rightmost tree_empty checkpoint_at prune_excess_checkpoints
  add_tip_checkpoint max_checkpoints checkpoint_id = ask b.max_checkpoint_id >>= λ max_id.
      if at_least max_id checkpoint_id
      then return false
      else (ask b.last_shard >>= λ last. expect (flagged last) >>= λ found.
          add_checkpoint_at checkpoint_id found >>= λ _.
          prune_excess_checkpoints b shard_height max_checkpoints >>= λ _. return true)

  abbrev pub truncated_part :
      Option (LocatedPrunableTree H) → Position → Option (Option (LocatedPrunableTree H))
  truncated_part none position = some none
  truncated_part (some t) position = truncate_to_position t position

  abbrev pub put_truncated_cap :
      Option (LocatedPrunableTree H) → Effect S (ShardTreeError E) (Unit {0})
  put_truncated_cap none = return tt
  put_truncated_cap (some truncated_cap) = stored (b.put_cap truncated_cap.root)

  abbrev pub put_truncated_shard :
      C → ℕ → Option (LocatedPrunableTree H) → Effect S (ShardTreeError E) (Unit {0})
  put_truncated_shard checkpoint_id index none = return tt
  put_truncated_shard checkpoint_id index (some truncated) =
      stored (b.truncate_shards index) >>= λ _. stored (b.put_shard truncated) >>= λ _.
      stored (b.truncate_checkpoints_retaining checkpoint_id)

  unfoldable pub truncate_to_state : Level → C → TreeState → Effect S (ShardTreeError E) (Unit {0})
  unfolding truncate_to_position subtree_addr root_addr
  truncate_to_state depth checkpoint_id empty = stored (b.truncate_shards 0) >>= λ _.
      stored (b.truncate_checkpoints_retaining checkpoint_id) >>= λ _. stored (b.put_cap nil)
  truncate_to_state depth checkpoint_id (at_position position) =
      let addr = subtree_addr shard_height position in
      ask (b.get_shard addr) >>= λ shard. expect (truncated_part shard position) >>= λ replacement.
      ask b.get_cap >>= λ top.
      expect (truncate_to_position (record { root_addr = root_addr depth; root = top }) position)
      >>= λ truncated_cap. put_truncated_cap truncated_cap >>= λ _.
          put_truncated_shard checkpoint_id addr.index replacement

  abbrev pub truncate_to_found : Level → Option (C × Checkpoint) → Effect S (ShardTreeError E) Bool
  truncate_to_found depth none = return false
  truncate_to_found depth (some (id, c)) =
      truncate_to_state depth id c.tree_state >>= λ _. return true

  unfoldable pub truncate_to_checkpoint_depth : Level → ℕ → Effect S (ShardTreeError E) Bool
  unfolding truncate_to_state
  truncate_to_checkpoint_depth depth checkpoint_depth =
      ask (b.get_checkpoint_at_depth checkpoint_depth) >>= truncate_to_found depth

  unfoldable pub truncate_to_checkpoint : Level → C → Effect S (ShardTreeError E) Bool
  unfolding truncate_to_state
  truncate_to_checkpoint depth checkpoint_id = ask (b.get_checkpoint checkpoint_id) >>= λ found.
      truncate_to_found depth (fmap (λ c. (checkpoint_id, c)) found)

  abbrev pub marked_at : Option (H × RetentionFlags) → Bool
  marked_at none = false
  marked_at (some (v, r)) = is_marked r

  -- `Some(cid) >= min`, where `None` is least.
  abbrev pub not_before : C → Option C → Bool
  not_before cid none = true
  not_before cid (some m) = elim (o.compare cid m) [ lt ↦ false | eq ↦ true | gt ↦ true ]

  -- The mark goes with a checkpoint that is still there, or at once.
  unfoldable pub remove_mark_from :
      LocatedPrunableTree H → Position → Option C → Effect S (ShardTreeError E) Bool
  unfolding clear_flags mark_removed
  remove_mark_from shard position none =
      expect (clear_flags shard ((position, marked) ∷ [])) >>= λ cleared.
      stored (b.put_shard cleared) >>= λ _. return true
  remove_mark_from shard position (some cid) =
      stored (b.update_checkpoint_with cid (λ c. ok (mark_removed c position)))

  abbrev pub usable_checkpoint : Option C → Option C → Option C
  usable_checkpoint none min_id = none
  usable_checkpoint (some cid) min_id = if not_before cid min_id then some cid else none

  abbrev pub remove_mark_in :
      Option (LocatedPrunableTree H) → Bool → Position → Option C → Effect S (ShardTreeError E) Bool
  remove_mark_in none is_there position as_of = return false
  remove_mark_in (some shard) false position as_of = return false
  remove_mark_in (some shard) true position none = remove_mark_from shard position none
  remove_mark_in (some shard) true position (some cid) = ask b.min_checkpoint_id >>= λ min_id.
      remove_mark_from shard position (usable_checkpoint (some cid) min_id)

  unfoldable pub remove_mark : Position → Option C → Effect S (ShardTreeError E) Bool
  unfolding remove_mark_from value_at_position is_marked subtree_addr
  remove_mark position as_of_checkpoint =
      ask (b.get_shard (subtree_addr shard_height position)) >>= λ shard.
      expect (value_in shard position) >>= λ found.
      remove_mark_in shard (marked_at found) position as_of_checkpoint
