-- ===== src/Tests/Stores.antt =====
-- Stores in memory with shards of one level, and calls of them.
use incrementalmerkletree.Prelude.{
  ℕ, some, none, List, [], ◌∷◌, ok, ◌≡◌, refl, if◌then◌else◌, ltb, ◌==◌, fmap, arith,
}
use incrementalmerkletree.OrderedMap.{ℕ-Ord, IsSorted, AllAbove}
use incrementalmerkletree.ShardTree.Tree.{leaf, nil}
use incrementalmerkletree.ShardTree.Located as Located
use incrementalmerkletree.ShardTree.Prunable.Located.{LocatedPrunableTree}
use incrementalmerkletree.ShardTree.Store.{clear_marks_removed, at_position}
use incrementalmerkletree.ShardTree.Store.Memory.{
  MemoryShardStore, put_shard, get_shard, get_checkpoint, truncate_checkpoints_retaining,
}
use incrementalmerkletree.ShardTree.Store.Memory.Shards.{addr, IsAddressed}
use incrementalmerkletree.ShardTree.Store.Memory.Operations.{
  Change, IsWellFormed, IsAllowed, AreAllowed, apply_all, apply_all-IsWellFormed,
}
use incrementalmerkletree.ShardTree.Store.Memory.Behaviour.{
  put_shard-get_shard, truncate_checkpoints_retaining-get_checkpoint,
}
use incrementalmerkletree.ShardTree.Store.Caching.Flush.{session}
use incrementalmerkletree.ShardTree.Store.Caching.Refines.{session-apply_all}

abbrev shard : ℕ → ℕ → LocatedPrunableTree ℕ
shard index value = record { root_addr = addr 1 index; root = leaf (value, 0) }

abbrev two_checkpoints : MemoryShardStore ℕ ℕ
two_checkpoints = record {
  shards = shard 0 5 ∷ [];
  checkpoints =
      (1, record { tree_state = at_position 0; marks_removed = [] })
      ∷ (4, record { tree_state = at_position 1; marks_removed = (0, tt) ∷ [] })
      ∷ [];
  cap = nil;
}

two_checkpoints-IsWellFormed : IsWellFormed 1 two_checkpoints
unfolding IsWellFormed IsAddressed IsSorted AllAbove
two_checkpoints-IsWellFormed = ((refl, tt), omega arith, ((refl, tt), (tt, tt)))

abbrev changes : List (Change ℕ ℕ)
changes =
    Change.put_shard (shard 2 7)
    ∷ Change.truncate_shards 1
    ∷ Change.add_checkpoint 6 (record { tree_state = at_position 1; marks_removed = [] })
    ∷ Change.update_checkpoint_with 4 (λ c. record c { marks_removed = (1, tt) ∷ [] })
    ∷ Change.remove_checkpoint 1
    ∷ Change.truncate_checkpoints_retaining 4
    ∷ Change.put_shard (shard 1 8)
    ∷ []

changes-AreAllowed : AreAllowed 1 changes
unfolding AreAllowed IsAllowed
changes-AreAllowed = ((refl, omega arith), (tt, (tt, (tt, (tt, (tt, ((refl, omega arith), tt)))))))

apply_all-IsWellFormed_example :
    (t : MemoryShardStore ℕ ℕ) × (apply_all changes two_checkpoints ≡ some t) × IsWellFormed 1 t
apply_all-IsWellFormed_example =
    apply_all-IsWellFormed 1 changes two_checkpoints changes-AreAllowed two_checkpoints-IsWellFormed

session-apply_all_example :
    (t : MemoryShardStore ℕ ℕ) × (apply_all changes two_checkpoints ≡ some t)
    × (session changes two_checkpoints ≡ some (ok t))
session-apply_all_example =
    session-apply_all 1 changes two_checkpoints two_checkpoints-IsWellFormed changes-AreAllowed

put_shard-get_shard_example :
    (u : MemoryShardStore ℕ ℕ) × (put_shard (shard 2 7) two_checkpoints ≡ some u)
    × (get_shard (addr 1 1) u ≡ (
        if 1 == 2
        then some (shard 2 7)
        else if ltb 1 1
        then get_shard (addr 1 1) two_checkpoints
        else if ltb 1 2
        then some (Located.empty (addr 1 1))
        else none))
put_shard-get_shard_example =
    put_shard-get_shard 1 (shard 2 7) two_checkpoints (addr 1 1) two_checkpoints-IsWellFormed refl
      (omega arith)

truncate_checkpoints_retaining-get_checkpoint_example :
    get_checkpoint 4 (truncate_checkpoints_retaining 4 two_checkpoints)
    ≡ fmap clear_marks_removed (get_checkpoint 4 two_checkpoints)
truncate_checkpoints_retaining-get_checkpoint_example =
    truncate_checkpoints_retaining-get_checkpoint 4 4 two_checkpoints
