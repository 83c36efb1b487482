-- ===== src/Tests/Trees.antt =====
-- Small shard trees in memory: three levels over shards of one.
use incrementalmerkletree.Prelude.{
  ℕ, some, List, [], ◌∷◌, ok, err, ◌≡◌, refl, ◌⊎◌, arith, zero, suc, ◌<◌, none,
}
use incrementalmerkletree.Address.{Address}
use incrementalmerkletree.OrderedMap.{ℕ-Ord}
use incrementalmerkletree.ShardTree.Store.Memory.{MemoryShardStore, get_shard}
use incrementalmerkletree.ShardTree.Store.Interface.{memory_store}
use incrementalmerkletree.ShardTree.Sharded.{query}
use incrementalmerkletree.Tests.Sample.{sample_hash, sample_eq, sample_leaves}
use incrementalmerkletree.Address.Shape.{Fits}
use incrementalmerkletree.ShardTree.Tree.{parent, leaf, nil}
use incrementalmerkletree.ShardTree.Prunable.Located.{LocatedPrunableTree, QueryError}
use incrementalmerkletree.ShardTree.Prunable.Sound.{value, truncated}
use incrementalmerkletree.ShardTree.Store.{at_position}
use incrementalmerkletree.ShardTree.Store.Memory.Shards.{addr}
use incrementalmerkletree.ShardTree.Sharded.FromShards.{root_from_shards}
use incrementalmerkletree.ShardTree.Sharded.Within.{shard_of, ShardIsSound, root_from_shards-value}
use incrementalmerkletree.ShardTree.Sharded.Across.{root_from_shards-across}
use incrementalmerkletree.ShardTree.Sharded.Across.Collect.{Kept}

abbrev Store : Type 0
Store = MemoryShardStore ℕ ℕ

abbrev three : Store
three = record {
  shards =
      record { root_addr = addr 1 0; root = parent none (leaf (10, 0)) (leaf (11, 2)) }
      ∷ record { root_addr = addr 1 1; root = parent none (leaf (12, 1)) (leaf (13, 0)) }
      ∷ record { root_addr = addr 1 2; root = parent none (leaf (14, 0)) nil }
      ∷ [];
  checkpoints = (1, record { tree_state = at_position 2; marks_removed = [] }) ∷ [];
  cap = nil;
}

abbrev second : LocatedPrunableTree ℕ
second = record { root_addr = addr 1 1; root = parent none (leaf (12, 1)) (leaf (13, 0)) }

leaf-Fits : Fits (addr 0 2)
leaf-Fits = record { levels = omega arith; leaves = omega arith }

second-Fits : Fits (shard_of 1 (addr 0 2))
unfolding shard_of
second-Fits = record { levels = omega arith; leaves = omega arith }

second_stored : memory_store.get_shard (shard_of 1 (addr 0 2)) three ≡ ok (some second)
unfolding memory_store get_shard shard_of
second_stored = refl

second-ShardIsSound : ShardIsSound sample_leaves (shard_of 1 (addr 0 2)) (some second)
unfolding ShardIsSound shard_of
second-ShardIsSound = (refl, (omega arith, tt, refl, refl))

root_from_shards-value_example :
    (root_from_shards memory_store 1 three (addr 0 2) 3
      ≡ some (ok (value (truncated 3 sample_leaves) (addr 0 2))))
    ⊎ ((missing : List Address) × (root_from_shards memory_store 1 three (addr 0 2) 3
          ≡ some (err (query (QueryError.tree_incomplete missing)))))
root_from_shards-value_example =
    root_from_shards-value memory_store 1 three sample_leaves (addr 0 2) 3 (some second)
      (omega arith) leaf-Fits second-Fits second_stored second-ShardIsSound

top-Fits : Fits (addr 3 0)
top-Fits = record { levels = omega arith; leaves = omega arith }

three-Kept : (i : ℕ) → i < 4 → Kept memory_store 1 three sample_leaves i
unfolding memory_store get_shard ShardIsSound
three-Kept zero less = (
  some (record { root_addr = addr 1 0; root = parent none (leaf (10, 0)) (leaf (11, 2)) }),
  refl,
  (refl, (omega arith, tt, refl, refl)),
)
three-Kept (suc zero) less = (some second, refl, (refl, (omega arith, tt, refl, refl)))
three-Kept (suc (suc zero)) less = (
  some (record { root_addr = addr 1 2; root = parent none (leaf (14, 0)) nil }),
  refl,
  (refl, (omega arith, tt, refl, tt)),
)
three-Kept (suc (suc (suc zero))) less = (none, refl, tt)
three-Kept (suc (suc (suc (suc i)))) less = absurd (omega arith)

root_from_shards-across_example :
    (root_from_shards memory_store 1 three (addr 3 0) 5
      ≡ some (ok (value (truncated 5 sample_leaves) (addr 3 0))))
    ⊎ ((missing : List Address) × (root_from_shards memory_store 1 three (addr 3 0) 5
          ≡ some (err (query (QueryError.tree_incomplete missing)))))
root_from_shards-across_example =
    root_from_shards-across memory_store 1 three sample_leaves (addr 3 0) 5 (omega arith) top-Fits
      (λ i lo hi. three-Kept i hi)
