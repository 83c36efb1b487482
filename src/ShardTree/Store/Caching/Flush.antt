-- ===== src/ShardTree/Store/Caching/Flush.antt =====
-- A `CachingShardStore` over a `MemoryShardStore`: its calls in sequence, between `load` and `flush`.
use incrementalmerkletree.Prelude.{Option, some, List, [], ◌∷◌, Result, ◌>>?◌, ◌>>=◌}
use incrementalmerkletree.OrderedMap.{Ord}
use incrementalmerkletree.ShardTree.Store.Memory.{MemoryShardStore}
use incrementalmerkletree.ShardTree.Store.Memory.Operations.{Change}
use incrementalmerkletree.ShardTree.Store.Interface.{Infallible, memory_store}
use incrementalmerkletree.ShardTree.Store.Caching.{CachingShardStore, load, flush}
use incrementalmerkletree.ShardTree.Store.Caching.Operations as Cached

abbrev pub CachedStore {ℓ} : Type ℓ → Type ℓ → Type ℓ
CachedStore H C = CachingShardStore (MemoryShardStore H C) H C

module _ {ℓ} {H C : Type ℓ} ⦃o : Ord C⦄ where
  unfoldable pub apply : Change H C → CachedStore H C → Option (CachedStore H C)
  unfolding Cached.put_shard Cached.truncate_shards Cached.put_cap Cached.add_checkpoint
      Cached.update_checkpoint_with Cached.remove_checkpoint Cached.truncate_checkpoints_retaining
  apply (Change.put_shard t) s = Cached.put_shard t s
  apply (Change.truncate_shards n) s = some (Cached.truncate_shards n s)
  apply (Change.put_cap top) s = some (Cached.put_cap top s)
  apply (Change.add_checkpoint id c) s = some (Cached.add_checkpoint id c s)
  apply (Change.update_checkpoint_with id f) s = some (Cached.update_checkpoint_with id f s).1
  apply (Change.remove_checkpoint id) s = some (Cached.remove_checkpoint id s)
  apply (Change.truncate_checkpoints_retaining id) s =
      some (Cached.truncate_checkpoints_retaining id s)

  unfoldable pub apply_all : List (Change H C) → CachedStore H C → Option (CachedStore H C)
  unfolding apply
  apply_all [] s = some s
  apply_all (c ∷ cs) s = apply c s >>= λ t. apply_all cs t

  -- A store is loaded, changed through the cache, and flushed.
  unfoldable pub session :
      List (Change H C) → MemoryShardStore H C → Option (Result Infallible (MemoryShardStore H C))
  unfolding load flush apply_all memory_store
  session cs s = load memory_store s >>? λ c. apply_all cs c >>= λ c. flush memory_store c
