-- ===== src/ShardTree/Store/Caching/Refines.antt =====
-- What `load` and `flush` of a `CachingShardStore` over a `MemoryShardStore` make of its stores.
use incrementalmerkletree.Prelude.{
  some, List, [], ◌∷◌, ◌++◌, ok, ◌>>?◌, ◌>>=◌, take, ◌≡◌, refl, ap, ◌∙◌, length, arith, >>=-some,
}
use incrementalmerkletree.Level.{Level}
use incrementalmerkletree.OrderedMap.{Ord, IsSorted}
use incrementalmerkletree.OrderedMap.Laws.{get-nil}
use incrementalmerkletree.OrderedMap.Ext.{HasKeysOf, insert_all-HasKeysOf}
use incrementalmerkletree.ShardTree.Store.Effect.{for_each, continue, final}
use incrementalmerkletree.ShardTree.Store.Memory.{MemoryShardStore, update_found, for_entries}
use incrementalmerkletree.ShardTree.Store.Memory
use incrementalmerkletree.ShardTree.Store.Memory.Shards.{IsAddressed}
use incrementalmerkletree.ShardTree.Store.Memory.Operations.{
  Change, IsWellFormed, IsAllowed, AreAllowed, apply-IsWellFormed, put_shard-put_result,
}
use incrementalmerkletree.ShardTree.Store.Memory.Operations as Direct
use incrementalmerkletree.ShardTree.Store.Interface.{Infallible, memory_store, infallible}
use incrementalmerkletree.ShardTree.Store.Caching.{
  loaded, load, flush, flush_effect, load_cache, cached_checkpoints,
}
use incrementalmerkletree.ShardTree.Store.Caching.Copy.{
  Copying, flush_shard-Copying, load_shards-Copying, for_entries-add, for_each-add,
  for_entries-push, take-length,
}
use incrementalmerkletree.ShardTree.Store.Caching.Flush.{CachedStore}
use incrementalmerkletree.ShardTree.Store.Caching.Flush as Cache
use incrementalmerkletree.ShardTree.Store.Caching.Simulates.{
  acted, Follows, IsCoherent, perform-acted, apply_all-Simulates,
}

module _ {ℓ} {H C : Type ℓ} ⦃o : Ord C⦄ (level : Level) where
  loaded_checkpoints :
      (s : MemoryShardStore H C)
      → IsSorted s.checkpoints
      → for_entries {E = Infallible}
          (λ m id c. ok (Memory.add_checkpoint id c m))
          (record { shards = s.shards; checkpoints = []; cap = s.cap })
          (take (length s.checkpoints) s.checkpoints)
        ≡ ok s
  unfolding HasKeysOf IsSorted
  loaded_checkpoints s sorted =
      ap
        (for_entries (λ m id c. ok (Memory.add_checkpoint id c m))
          (record { shards = s.shards; checkpoints = []; cap = s.cap }))
        (take-length s.checkpoints)
      ∙ for_entries-add s.checkpoints (record { shards = s.shards; checkpoints = []; cap = s.cap })
      ∙ ap (λ m. ok (record s { checkpoints = m }))
          (insert_all-HasKeysOf s.checkpoints [] sorted tt (λ k _. get-nil k))

  -- The loaded cache is the backend itself.
  pub load_lem :
      (s : MemoryShardStore H C)
      → IsWellFormed level s
      → load memory_store s ≡ some (ok (record { backend = s; cache = s; deferred_actions = [] }))
  unfolding load load_cache memory_store Memory.empty IsWellFormed Copying IsAddressed
      Memory.get_shard_roots Memory.get_cap Memory.put_cap Memory.with_checkpoints
      Memory.checkpoint_count
  load_lem s (h, fits, sorted) = ap (loaded memory_store) (
      ap (continue _) (
        load_shards-Copying level s s.shards [] [] Memory.empty (h, fits, tt, omega arith) refl
          refl)
      ∙ ap (λ r. some (r, s)) (loaded_checkpoints s sorted))

  cached_checkpoints_lem :
      (cache : MemoryShardStore H C) → cached_checkpoints memory_store cache ≡ cache.checkpoints
  unfolding cached_checkpoints Memory.with_checkpoints Memory.checkpoint_count
  cached_checkpoints_lem cache =
      ap
        (λ es.
          infallible (for_entries (λ checkpoints id c. ok (checkpoints ++ (id, c) ∷ [])) [] es))
        (take-length cache.checkpoints)
      ∙ ap infallible (for_entries-push cache.checkpoints [])

  -- The flushed backend is the cache.
  flush_lem : (s : CachedStore H C) → IsCoherent level s → flush memory_store s ≡ some (ok s.cache)
  unfolding flush flush_effect memory_store IsCoherent Follows Copying IsWellFormed Memory.put_cap
      Memory.get_cap Memory.get_shard_roots cached_checkpoints Memory.with_checkpoints
      Memory.checkpoint_count
  flush_lem s ((h, fits, sorted), (h', fits', sorted'), le, keys) = ap final (
      ap (continue _) (perform-acted s.deferred_actions s.backend)
      ∙ ap (continue _) (
          flush_shard-Copying level s.cache s.cache.shards []
            (acted s.deferred_actions s.backend).shards (acted s.deferred_actions s.backend)
            (h', fits', h, le) refl refl)
      ∙ ap
          (λ es.
            for_each (λ e. memory_store.add_checkpoint e.0 e.1) es
              (record s.cache { checkpoints = (acted s.deferred_actions s.backend).checkpoints }))
          (cached_checkpoints_lem s.cache)
      ∙ for_each-add s.cache.checkpoints
          (record s.cache { checkpoints = (acted s.deferred_actions s.backend).checkpoints })
      ∙ ap (λ m. some (ok tt, record s.cache { checkpoints = m }))
          (insert_all-HasKeysOf s.cache.checkpoints (acted s.deferred_actions s.backend).checkpoints
            sorted' sorted keys))

  load-IsCoherent :
      (s : MemoryShardStore H C)
      → IsWellFormed level s
      → IsCoherent level (record { backend = s; cache = s; deferred_actions = [] })
  unfolding IsCoherent Follows acted HasKeysOf
  load-IsCoherent s w = (w, w, omega arith, λ k e. e)

  -- Let a store in memory be well formed for a level, and let calls that change it be allowed:
  -- every shard that they put is of this level and its index is not the last of 64 bits. Then
  -- the calls made on the store itself all return, and a caching store that is loaded from the
  -- store, gets the same calls, and is flushed leaves exactly the same store.
  pub session-apply_all :
      (cs : List (Change H C)) (s : MemoryShardStore H C)
      → IsWellFormed level s
      → AreAllowed level cs
      → (t : MemoryShardStore H C) × (Direct.apply_all cs s ≡ some t)
        × (Cache.session cs s ≡ some (ok t))
  unfolding Cache.session
  session-apply_all cs s w a =
      let (t, e, d, k) = apply_all-Simulates level cs _ a (load-IsCoherent s w) in
      (
        t.cache,
        d,
        ap (λ r. r >>? λ c. Cache.apply_all cs c >>= λ c. flush memory_store c) (load_lem s w)
            ∙ >>=-some e (flush memory_store)
            ∙ flush_lem t k,
      )
