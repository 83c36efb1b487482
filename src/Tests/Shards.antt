-- ===== src/Tests/Shards.antt =====
-- The theorems on prunable trees, at concrete inputs.
use incrementalmerkletree.Prelude.{ℕ, ◌+◌, ◌*◌, ◌≡◌, refl, arith, some, none, List, ok}
use incrementalmerkletree.Address.{Address, position_range_start, position_range_end}
use incrementalmerkletree.Address.Shape.{Fits}
use incrementalmerkletree.ShardTree.Tree.{parent, leaf, nil}
use incrementalmerkletree.ShardTree.Flags.{ephemeral, marked}
use incrementalmerkletree.ShardTree.Prunable.{
  PrunableTree, MergeError, root_hash, merge_checked, prune,
}
use incrementalmerkletree.ShardTree.Prunable.Sound.{value, IsSound, truncated}
use incrementalmerkletree.ShardTree.Prunable.Sound.RootHash.{root_hash_sound}
use incrementalmerkletree.ShardTree.Prunable.Sound.Merge.{merge_checked-IsSound}
use incrementalmerkletree.ShardTree.Prunable.Sound.Marked.{HasMarked}
use incrementalmerkletree.ShardTree.Prunable.Sound.Conflict.{merge_checked-conflict}
use incrementalmerkletree.ShardTree.Prunable.Pruned.{prune-root_hash}
use incrementalmerkletree.Address.{contains}
use incrementalmerkletree.Hashable
use incrementalmerkletree.Hashable.{empty_root}
use incrementalmerkletree.Prelude.{shl, shr}
use incrementalmerkletree.Address.{in_range, position_range, children}
use incrementalmerkletree.Position
use incrementalmerkletree.Position.{is_right_child}
use incrementalmerkletree.ShardTree.Flags.{is_marked}
use incrementalmerkletree.ShardTree.Prunable.{is_marked_leaf, leaf_value}
use incrementalmerkletree.Prelude.{length, true, ◌⊎◌, ◌↔◌, err, ◌≤◌, ◌<◌, ◌∷◌, []}
use incrementalmerkletree.ShardTree.Prunable.Located.{LocatedPrunableTree, QueryError, witness}
use incrementalmerkletree.ShardTree.Prunable.Located.Insert.{IncompleteAt, insert_go}
use incrementalmerkletree.ShardTree.Prunable.Sound.Insert.{insert_go-IsSound}
use incrementalmerkletree.ShardTree.Prunable.Located.{frontier, truncate_to_position}
use incrementalmerkletree.ShardTree.Prunable.Sound.Ends.{EndsBy, EndsAt}
use incrementalmerkletree.ShardTree.Prunable.Sound.Truncate.{truncate_to_position-IsSound}
use incrementalmerkletree.Retention.{Retention, Marking}
use incrementalmerkletree.ShardTree.Flags.{from_retention, is_checkpoint, from_retention-is_marked}
use incrementalmerkletree.ShardTree.Prunable.Sound.Ommers.{IsFrontier, frontier-IsFrontier}
use incrementalmerkletree.ShardTree.Prunable.Sound.Witness.{witness_sound}
use incrementalmerkletree.Tests.Sample.{sample_hash, sample_eq, sample_leaves}

-- The root of a tree of four leaves.
abbrev four : Address
four = record { level = 2; index = 0 }

four-Fits : Fits four
four-Fits = record { levels = omega arith; leaves = omega arith }

-- Two leaves and a pruned node for the other two.
abbrev left_known : PrunableTree ℕ
left_known = parent none (parent none (leaf (10, marked)) (leaf (11, ephemeral))) nil

abbrev right_known : PrunableTree ℕ
right_known = parent none nil (parent none (leaf (12, ephemeral)) (leaf (13, marked)))

left_known-IsSound : IsSound sample_leaves four left_known
left_known-IsSound = (omega arith, tt, (omega arith, tt, refl, refl), tt)

right_known-IsSound : IsSound sample_leaves four right_known
right_known-IsSound = (omega arith, tt, tt, (omega arith, tt, refl, refl))

root_hash_sound_example :
    (root_hash left_known four 2 ≡ some (ok (value (truncated 2 sample_leaves) four)))
    ⊎ ((missing : List Address) × (root_hash left_known four 2 ≡ some (err missing)))
root_hash_sound_example =
    root_hash_sound sample_leaves 2 four left_known four-Fits left_known-IsSound

merge_checked-IsSound_example :
    (m : PrunableTree ℕ) × (merge_checked four left_known right_known ≡ some (ok m))
    × IsSound sample_leaves four m
    × (HasMarked 3 four m ↔ (HasMarked 3 four left_known ⊎ HasMarked 3 four right_known))
merge_checked-IsSound_example =
    merge_checked-IsSound sample_leaves 3 four left_known right_known four-Fits left_known-IsSound
      right_known-IsSound

-- Two leaves at the address of the other two.
abbrev other_pair : PrunableTree ℕ
other_pair = parent none (leaf (10, marked)) (leaf (12, ephemeral))

abbrev left_pair : PrunableTree ℕ
left_pair = parent none (leaf (10, marked)) (leaf (11, ephemeral))

abbrev pair : Address
pair = record { level = 1; index = 0 }

pair-Fits : Fits pair
pair-Fits = record { levels = omega arith; leaves = omega arith }

left_pair_root :
    root_hash left_pair pair (position_range_end pair) ≡ some (ok (1 + 3 * 10 + 5 * 11))
unfolding root_hash position_range_end position_range_start children shl
left_pair_root = refl

other_pair_root :
    root_hash other_pair pair (position_range_end pair) ≡ some (ok (1 + 3 * 10 + 5 * 12))
unfolding root_hash position_range_end position_range_start children shl
other_pair_root = refl

merge_checked-conflict_example :
    merge_checked pair left_pair other_pair ≡ some (err (MergeError.conflict pair))
merge_checked-conflict_example =
    merge_checked-conflict pair left_pair other_pair (1 + 3 * 10 + 5 * 11) (1 + 3 * 10 + 5 * 12)
      pair-Fits left_pair_root other_pair_root (omega arith)

prune-root_hash_example :
    (root_hash
        (parent none (leaf (10, ephemeral)) (leaf (11, ephemeral)))
        four
        (position_range_end four)
      ≡ some (ok (1 + 1 + 3 * 10 + 5 * 11)))
    × (t : PrunableTree ℕ) × (prune (parent none (leaf (10, ephemeral)) (leaf (11, ephemeral))) 2
        ≡ some t)
    × (root_hash t four (position_range_end four) ≡ some (ok (1 + 2 + 3 * 10 + 5 * 11)))
prune-root_hash_example = prune-root_hash four 10 11 four-Fits (omega arith)

-- The two right leaves as a tree of their own.
abbrev right_pair : LocatedPrunableTree ℕ
right_pair = record {
  root_addr = record { level = 1; index = 1 };
  root = parent none (leaf (12, ephemeral)) (leaf (13, marked));
}

right_pair-IsSound : IsSound sample_leaves right_pair.root_addr right_pair.root
right_pair-IsSound = (omega arith, tt, refl, refl)

right_pair-contains : contains four right_pair.root_addr ≡ true
unfolding contains shr
right_pair-contains = refl

insert_go-IsSound_example :
    (m : PrunableTree ℕ) × (found : List IncompleteAt) × (insert_go four left_known right_pair true
      ≡ some (ok (m, found)))
    × IsSound sample_leaves four m
    × (HasMarked 3 four m
        ↔ (HasMarked 3 four left_known ⊎ HasMarked 3 right_pair.root_addr right_pair.root))
insert_go-IsSound_example =
    insert_go-IsSound sample_leaves 3 four left_known right_pair true four-Fits right_pair-contains
      left_known-IsSound right_pair-IsSound

abbrev left_tree : LocatedPrunableTree ℕ
left_tree = record { root_addr = four; root = left_known }

four_start : position_range_start four ≤ 0
unfolding position_range_start shl
four_start = omega arith

four_end : 0 < position_range_end four
unfolding position_range_end shl
four_end = omega arith

witness_sound_example :
    ((path : List ℕ) × (witness left_tree 0 2 ≡ some (ok path))
      × ((length path ≡ 2)
          × (Hashable.root (record { path_elems = path; position = 0 }) 10
              ≡ value (truncated 2 sample_leaves) four)))
    ⊎ ((missing : List Address) × (witness left_tree 0 2
          ≡ some (err (QueryError.tree_incomplete missing))))
witness_sound_example =
    witness_sound sample_leaves left_tree 0 2 four-Fits left_known-IsSound four_start four_end
      (omega arith)

-- The witness above is there, its second element an empty root.
witness_found : witness left_tree 0 2 ≡ some (ok (11 ∷ 1 ∷ []))
unfolding witness in_range position_range shl children root_hash is_right_child is_marked_leaf
    is_marked Position.add leaf_value empty_root
witness_found = refl

frontier-IsFrontier_example : IsFrontier sample_leaves four left_known (frontier left_tree)
frontier-IsFrontier_example =
    frontier-IsFrontier sample_leaves left_tree four-Fits refl left_known-IsSound

truncate_to_position-IsSound_example :
    ((root : PrunableTree ℕ) × (truncate_to_position left_tree 0
        ≡ some (some (record { root_addr = four; root = root })))
      × (IsSound sample_leaves four root
          × EndsBy 0 four root
          × EndsAt 0 four left_known
          × (HasMarked 0 four root ↔ (HasMarked 0 four left_known × (0 ≤ 0)))))
    ⊎ ((truncate_to_position left_tree 0 ≡ some none) × ¬ (EndsAt 0 four left_known))
truncate_to_position-IsSound_example =
    truncate_to_position-IsSound sample_leaves 0 0 left_tree four-Fits left_known-IsSound four_start
      four_end

from_retention-is_marked_example :
    (is_marked (from_retention {C = ℕ} (Retention.checkpoint 7 Marking.marked)) ≡ true)
    × (is_checkpoint (from_retention {C = ℕ} (Retention.checkpoint 7 Marking.marked)) ≡ true)
unfolding incrementalmerkletree.Retention.is_marked incrementalmerkletree.Retention.is_checkpoint
from_retention-is_marked_example =
    from_retention-is_marked {C = ℕ} (Retention.checkpoint 7 Marking.marked)
