-- ===== src/ShardTree/Store/Caching/Operations.antt =====
-- The operations of `CachingShardStore` of shardtree/src/store/caching.rs: all go to the cache, and
-- those that remove are kept for the backend too.
use incrementalmerkletree.Prelude.{ℕ, Option, some, List, [], ◌∷◌, ◌++◌, Bool, Result, ok, fmap}
use incrementalmerkletree.Address.{Address}
use incrementalmerkletree.OrderedMap.{Ord}
use incrementalmerkletree.ShardTree.Prunable.{PrunableTree}
use incrementalmerkletree.ShardTree.Prunable.Located.{LocatedPrunableTree}
use incrementalmerkletree.ShardTree.Store.{Checkpoint}
use incrementalmerkletree.ShardTree.Store.Interface.{
  ShardStore, Infallible, infallible, modify, try_modify,
}
use incrementalmerkletree.ShardTree.Store.Memory.{MemoryShardStore}
use incrementalmerkletree.ShardTree.Store.Memory
use incrementalmerkletree.ShardTree.Store.Caching.{CachingShardStore, Action}

module _ {ℓ} {S H C : Type ℓ} ⦃o : Ord C⦄ where
  abbrev with_cache : CachingShardStore S H C → MemoryShardStore H C → CachingShardStore S H C
  with_cache s cache = record s { cache = cache }

  -- A change of the cache, after which the backend has to make one too.
  abbrev defer : Action C → CachingShardStore S H C → MemoryShardStore H C → CachingShardStore S H C
  defer action s cache = record s {
    cache = cache;
    deferred_actions = s.deferred_actions ++ action ∷ [];
  }

  unfoldable pub get_shard : Address → CachingShardStore S H C → Option (LocatedPrunableTree H)
  unfolding Memory.get_shard
  get_shard shard_root s = Memory.get_shard shard_root s.cache

  unfoldable pub last_shard : CachingShardStore S H C → Option (LocatedPrunableTree H)
  unfolding Memory.last_shard
  last_shard s = Memory.last_shard s.cache

  unfoldable pub get_shard_roots : CachingShardStore S H C → List Address
  unfolding Memory.get_shard_roots
  get_shard_roots s = Memory.get_shard_roots s.cache

  unfoldable pub get_cap : CachingShardStore S H C → PrunableTree H
  unfolding Memory.get_cap
  get_cap s = Memory.get_cap s.cache

  unfoldable pub checkpoint_count : CachingShardStore S H C → ℕ
  unfolding Memory.checkpoint_count
  checkpoint_count s = Memory.checkpoint_count s.cache

  unfoldable pub get_checkpoint : C → CachingShardStore S H C → Option Checkpoint
  unfolding Memory.get_checkpoint
  get_checkpoint id s = Memory.get_checkpoint id s.cache

  unfoldable pub get_checkpoint_at_depth : ℕ → CachingShardStore S H C → Option (C × Checkpoint)
  unfolding Memory.get_checkpoint_at_depth
  get_checkpoint_at_depth depth s = Memory.get_checkpoint_at_depth depth s.cache

  unfoldable pub min_checkpoint_id : CachingShardStore S H C → Option C
  unfolding Memory.min_checkpoint_id
  min_checkpoint_id s = Memory.min_checkpoint_id s.cache

  unfoldable pub max_checkpoint_id : CachingShardStore S H C → Option C
  unfolding Memory.max_checkpoint_id
  max_checkpoint_id s = Memory.max_checkpoint_id s.cache

  unfoldable pub put_shard :
      LocatedPrunableTree H → CachingShardStore S H C → Option (CachingShardStore S H C)
  unfolding Memory.put_shard
  put_shard t s = fmap (with_cache s) (Memory.put_shard t s.cache)

  unfoldable pub put_cap : PrunableTree H → CachingShardStore S H C → CachingShardStore S H C
  unfolding Memory.put_cap
  put_cap top s = with_cache s (Memory.put_cap top s.cache)

  unfoldable pub add_checkpoint : C → Checkpoint → CachingShardStore S H C → CachingShardStore S H C
  unfolding Memory.add_checkpoint
  add_checkpoint id c s = with_cache s (Memory.add_checkpoint id c s.cache)

  unfoldable pub update_checkpoint_with :
      C → (Checkpoint → Checkpoint) → CachingShardStore S H C → Bool × CachingShardStore S H C
  unfolding Memory.update_checkpoint_with
  update_checkpoint_with id update s =
      let changed = Memory.update_checkpoint_with id update s.cache in
      (changed.0, with_cache s changed.1)

  unfoldable pub truncate_shards : ℕ → CachingShardStore S H C → CachingShardStore S H C
  unfolding Memory.truncate_shards
  truncate_shards index s =
      defer (Action.truncate_shards index) s (Memory.truncate_shards index s.cache)

  unfoldable pub remove_checkpoint : C → CachingShardStore S H C → CachingShardStore S H C
  unfolding Memory.remove_checkpoint
  remove_checkpoint id s =
      defer (Action.remove_checkpoint id) s (Memory.remove_checkpoint id s.cache)

  unfoldable pub truncate_checkpoints_retaining :
      C → CachingShardStore S H C → CachingShardStore S H C
  unfolding Memory.truncate_checkpoints_retaining
  truncate_checkpoints_retaining id s =
      defer (Action.truncate_checkpoints_retaining id) s
        (Memory.truncate_checkpoints_retaining id s.cache)

  unfoldable pub with_checkpoints {ν} :
      {R : Type ℓ} {E : Type ν}
      → ℕ
      → (R → C → Checkpoint → Result E R)
      → R
      → CachingShardStore S H C
      → Result E R
  unfolding Memory.with_checkpoints
  with_checkpoints limit callback r s = Memory.with_checkpoints limit callback r s.cache

  unfoldable pub for_each_checkpoint {ν} :
      {R : Type ℓ} {E : Type ν}
      → ℕ
      → (R → C → Checkpoint → Result E R)
      → R
      → CachingShardStore S H C
      → Result E R
  unfolding Memory.for_each_checkpoint
  for_each_checkpoint limit callback r s = Memory.for_each_checkpoint limit callback r s.cache

unfoldable pub caching_store {ℓ} :
    {S H C : Type ℓ} ⦃o : Ord C⦄ → ShardStore (CachingShardStore S H C) H C Infallible
caching_store = record {
  get_shard = λ a s. ok (get_shard a s);
  last_shard = λ s. ok (last_shard s);
  put_shard = λ t. try_modify (put_shard t);
  get_shard_roots = λ s. ok (get_shard_roots s);
  truncate_shards = λ n. modify (truncate_shards n);
  get_cap = λ s. ok (get_cap s);
  put_cap = λ top. modify (put_cap top);
  min_checkpoint_id = λ s. ok (min_checkpoint_id s);
  max_checkpoint_id = λ s. ok (max_checkpoint_id s);
  add_checkpoint = λ id c. modify (add_checkpoint id c);
  checkpoint_count = λ s. ok (checkpoint_count s);
  get_checkpoint_at_depth = λ depth s. ok (get_checkpoint_at_depth depth s);
  get_checkpoint = λ id s. ok (get_checkpoint id s);
  with_checkpoints = λ limit f r s. some (with_checkpoints limit f r s, s);
  for_each_checkpoint = λ limit f r s. for_each_checkpoint limit f r s;
  update_checkpoint_with = λ id f s.
      let changed = update_checkpoint_with id (λ c. infallible (f c)) s in
      some (ok changed.0, changed.1);
  remove_checkpoint = λ id. modify (remove_checkpoint id);
  truncate_checkpoints_retaining = λ id. modify (truncate_checkpoints_retaining id);
}
