-- ===== src/ShardTree/Store/Caching.antt =====
-- `CachingShardStore` of shardtree/src/store/caching.rs, over any `ShardStore`.
pub mod Operations
pub mod Copy
pub mod Simulates
pub mod Refines
pub mod Flush
use incrementalmerkletree.Prelude.{
  ℕ, Option, some, none, List, [], ◌∷◌, ◌++◌, Bool, Result, ok, err, fmap, to_option,
}
use incrementalmerkletree.Address.{Address}
use incrementalmerkletree.OrderedMap.{Ord}
use incrementalmerkletree.ShardTree.Prunable.{PrunableTree}
use incrementalmerkletree.ShardTree.Prunable.Located.{LocatedPrunableTree}
use incrementalmerkletree.ShardTree.Store.{Checkpoint}
use incrementalmerkletree.ShardTree.Store.Effect.{
  Effect, return, read, expect, lift, ◌>>=◌, final, for_each,
}
use incrementalmerkletree.ShardTree.Store.Interface.{
  ShardStore, Infallible, infallible, modify, try_modify,
}
use incrementalmerkletree.ShardTree.Store.Memory.{MemoryShardStore}
use incrementalmerkletree.ShardTree.Store.Memory

pub data Action {ℓ} (C : Type ℓ) : Type ℓ where
  truncate_shards : ℕ → Action C
  remove_checkpoint : C → Action C
  truncate_checkpoints_retaining : C → Action C

pub record CachingShardStore {ℓ} (S H C : Type ℓ) : Type ℓ where
  pub backend : S
  pub cache : MemoryShardStore H C
  pub deferred_actions : List (Action C)

module _ {ℓ} {S H C : Type ℓ} {E : Type 0} ⦃o : Ord C⦄ (b : ShardStore S H C E) where
  -- The loop of `load` over the shards of the backend.
  unfoldable pub load_shards :
      List Address → MemoryShardStore H C → Effect S E (MemoryShardStore H C)
  unfolding Memory.put_shard
  load_shards [] cache = return cache
  load_shards (shard_root ∷ roots) cache = read (b.get_shard shard_root) >>= λ found.
      expect found >>= λ shard.
      expect (Memory.put_shard shard cache) >>= λ next. load_shards roots next

  unfoldable pub load_cache : Effect S E (MemoryShardStore H C)
  unfolding load_shards Memory.empty Memory.put_cap Memory.add_checkpoint
  load_cache = read b.get_shard_roots >>= λ roots. load_shards roots Memory.empty >>= λ cache.
      read b.get_cap >>= λ cap. read b.checkpoint_count >>= λ count.
      b.with_checkpoints count (λ m id c. ok (Memory.add_checkpoint id c m))
        (Memory.put_cap cap cache)

  abbrev pub loaded :
      Option (Result E (MemoryShardStore H C) × S) → Option (Result E (CachingShardStore S H C))
  loaded none = none
  loaded (some (err e, s)) = some (err e)
  loaded (some (ok cache, s)) =
      some (ok (record { backend = s; cache = cache; deferred_actions = [] }))

  unfoldable pub load : S → Option (Result E (CachingShardStore S H C))
  unfolding load_cache
  load backend = loaded (load_cache backend)

  unfoldable pub perform : Action C → Effect S E (Unit {0})
  perform (truncate_shards index) = b.truncate_shards index
  perform (remove_checkpoint id) = b.remove_checkpoint id
  perform (truncate_checkpoints_retaining id) = b.truncate_checkpoints_retaining id

  -- The loop of `flush` over the shards of the cache.
  unfoldable pub flush_shard : MemoryShardStore H C → Address → Effect S E (Unit {0})
  unfolding Memory.get_shard
  flush_shard cache shard_root =
      expect (Memory.get_shard shard_root cache) >>= λ shard. b.put_shard shard

  -- The loop that gathers the checkpoints of the cache.
  unfoldable pub cached_checkpoints : MemoryShardStore H C → List (C × Checkpoint)
  unfolding Memory.with_checkpoints Memory.checkpoint_count
  cached_checkpoints cache = infallible (
      Memory.with_checkpoints (Memory.checkpoint_count cache)
        (λ checkpoints id c. ok (checkpoints ++ (id, c) ∷ [])) [] cache)

  unfoldable pub flush_effect : List (Action C) → MemoryShardStore H C → Effect S E (Unit {0})
  unfolding perform flush_shard cached_checkpoints Memory.get_shard_roots Memory.get_cap
  flush_effect actions cache = for_each perform actions >>= λ _.
      for_each (flush_shard cache) (Memory.get_shard_roots cache) >>= λ _.
      b.put_cap (Memory.get_cap cache) >>= λ _.
      for_each (λ e. b.add_checkpoint e.0 e.1) (cached_checkpoints cache)

  unfoldable pub flush : CachingShardStore S H C → Option (Result E S)
  unfolding flush_effect
  flush s = final (flush_effect s.deferred_actions s.cache s.backend)
