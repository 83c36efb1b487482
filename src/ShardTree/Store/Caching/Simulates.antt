-- ===== src/ShardTree/Store/Caching/Simulates.antt =====
-- The cache of a `CachingShardStore` and its backend, seen through the deferred actions: what each
-- call keeps between them.
use incrementalmerkletree.Prelude.{
  ℕ, zero, suc, ◌≤◌, Option, some, none, List, [], ◌∷◌, ◌++◌, ok, fmap, take, ◌≡◌, refl, sym, ap,
  ◌∙◌, length, arith, subst, >>=-some, some_injective,
}
use incrementalmerkletree.Level.{Level}
use incrementalmerkletree.OrderedMap.{Ord, get}
use incrementalmerkletree.OrderedMap.Ext.{HasKeysOf}
use incrementalmerkletree.ShardTree.Store.{Checkpoint}
use incrementalmerkletree.ShardTree.Store.Effect.{for_each}
use incrementalmerkletree.ShardTree.Store.Memory.{MemoryShardStore, update_found, for_entries}
use incrementalmerkletree.ShardTree.Store.Memory
use incrementalmerkletree.ShardTree.Store.Memory.Shards.{length-put_result}
use incrementalmerkletree.ShardTree.Store.Memory.Checkpoints.{
  insert-HasKeysOf, remove-HasKeysOf, truncated-HasKeysOf,
}
use incrementalmerkletree.ShardTree.Store.Memory.Operations.{
  Change, IsWellFormed, IsAllowed, AreAllowed, apply-IsWellFormed, put_shard-put_result,
}
use incrementalmerkletree.ShardTree.Store.Memory.Operations as Direct
use incrementalmerkletree.ShardTree.Store.Interface.{memory_store}
use incrementalmerkletree.ShardTree.Store.Caching.{Action, perform}
use incrementalmerkletree.ShardTree.Store.Caching.Flush.{CachedStore}
use incrementalmerkletree.ShardTree.Store.Caching.Flush as Cache
use incrementalmerkletree.ShardTree.Store.Caching.Operations as Cached

length-take_mono {ℓ} :
    {A : Type ℓ} (n : ℕ) (xs ys : List A)
    → length xs ≤ length ys
    → length (take n xs) ≤ length (take n ys)
length-take_mono zero xs ys h = omega arith
length-take_mono (suc n) [] ys h = omega arith
length-take_mono (suc n) (x ∷ xs) [] h = absurd (omega (arith, h))
length-take_mono (suc n) (x ∷ xs) (y ∷ ys) h =
    omega (arith, length-take_mono n xs ys (omega (arith, h)))

module _ {ℓ} {H C : Type ℓ} ⦃o : Ord C⦄ where
  -- What a deferred action does to a backend in memory.
  unfoldable pub act : Action C → MemoryShardStore H C → MemoryShardStore H C
  unfolding Memory.truncate_shards Memory.remove_checkpoint Memory.truncate_checkpoints_retaining
  act (Action.truncate_shards n) s = Memory.truncate_shards n s
  act (Action.remove_checkpoint id) s = Memory.remove_checkpoint id s
  act (Action.truncate_checkpoints_retaining id) s = Memory.truncate_checkpoints_retaining id s

  unfoldable pub acted : List (Action C) → MemoryShardStore H C → MemoryShardStore H C
  unfolding act
  acted [] s = s
  acted (a ∷ as') s = acted as' (act a s)

  acted-append :
      (as' : List (Action C)) (a : Action C) (s : MemoryShardStore H C)
      → acted (as' ++ a ∷ []) s ≡ act a (acted as' s)
  unfolding acted
  acted-append [] a s = refl
  acted-append (b ∷ as') a s = acted-append as' a (act b s)

  pub perform-acted :
      (as' : List (Action C)) (s : MemoryShardStore H C)
      → for_each (perform memory_store) as' s ≡ some (ok tt, acted as' s)
  unfolding acted act perform memory_store
  perform-acted [] s = refl
  perform-acted (Action.truncate_shards n ∷ as') s = perform-acted as' (Memory.truncate_shards n s)
  perform-acted (Action.remove_checkpoint id ∷ as') s =
      perform-acted as' (Memory.remove_checkpoint id s)
  perform-acted (Action.truncate_checkpoints_retaining id ∷ as') s =
      perform-acted as' (Memory.truncate_checkpoints_retaining id s)

module _ {ℓ} {H C : Type ℓ} ⦃o : Ord C⦄ (level : Level) where
  -- The backend has no more shards than the cache, and no other keys of checkpoints.
  unfoldable pub Follows : MemoryShardStore H C → MemoryShardStore H C → Type ℓ
  unfolding IsWellFormed HasKeysOf
  Follows m cache =
      IsWellFormed level m
      × IsWellFormed level cache
      × (length m.shards ≤ length cache.shards)
      × HasKeysOf cache.checkpoints m.checkpoints

  unfoldable pub IsCoherent : CachedStore H C → Type ℓ
  unfolding Follows acted
  IsCoherent s = Follows (acted s.deferred_actions s.backend) s.cache

  -- A call changes the cache as it would the store, and the backend still follows.
  unfoldable Simulates : Change H C → CachedStore H C → Type ℓ
  unfolding Cache.apply Direct.apply IsCoherent
  Simulates c s =
      (t : CachedStore H C) × (Cache.apply c s ≡ some t)
      × (Direct.apply c s.cache ≡ some t.cache)
      × IsCoherent t

  update_found-Follows :
      (id : C) (f : Checkpoint → Checkpoint) (m cache : MemoryShardStore H C)
      (c : Option Checkpoint)
      → Follows m cache
      → IsWellFormed level (update_found id f cache c).1
      → Follows m (update_found id f cache c).1
  unfolding Follows
  update_found-Follows id f m cache none w _ = w
  update_found-Follows id f m cache (some c) (w, _, le, h) v =
      (w, v, le, insert-HasKeysOf id (f c) cache.checkpoints m.checkpoints h)

  keeps_IsWellFormed :
      (c : Change H C) (s : MemoryShardStore H C) {t : MemoryShardStore H C}
      → IsAllowed level c
      → IsWellFormed level s
      → Direct.apply c s ≡ some t
      → IsWellFormed level t
  keeps_IsWellFormed c s a w e =
      let (u, e', w') = apply-IsWellFormed level c s a w in
      subst (IsWellFormed level) (some_injective (sym e' ∙ e)) w'

  -- A deferred call, from what it does to the number of shards and to the keys.
  defer-Follows :
      (a : Action C) (s : CachedStore H C) (cache : MemoryShardStore H C)
      → Follows (act a (acted s.deferred_actions s.backend)) cache
      → IsCoherent (record s { cache = cache; deferred_actions = s.deferred_actions ++ a ∷ [] })
  unfolding IsCoherent
  defer-Follows a s cache f =
      subst (λ m. Follows m cache) (sym (acted-append s.deferred_actions a s.backend)) f

  apply-Simulates :
      (c : Change H C) (s : CachedStore H C) → IsAllowed level c → IsCoherent s → Simulates c s
  unfolding IsCoherent Follows act Simulates Cache.apply Direct.apply Cached.put_shard
      Cached.put_cap Cached.truncate_shards Cached.add_checkpoint Cached.update_checkpoint_with
      Cached.remove_checkpoint Cached.truncate_checkpoints_retaining Memory.truncate_shards
      Memory.put_cap Memory.add_checkpoint Memory.update_checkpoint_with Memory.remove_checkpoint
      Memory.truncate_checkpoints_retaining IsWellFormed IsAllowed
  apply-Simulates (Change.put_shard t) s a (w, v, le, h) =
      let put = put_shard-put_result level t s.cache v a in
      (
        _,
        ap (fmap (λ cache. record s { cache = cache })) put,
        put,
        (
          w,
          keeps_IsWellFormed (Change.put_shard t) s.cache a v put,
          omega (arith, le, length-put_result level t.root_addr.index t s.cache.shards),
          h,
        ),
      )
  apply-Simulates (Change.truncate_shards n) s a (w, v, le, h) = (
    _,
    refl,
    refl,
    defer-Follows (Action.truncate_shards n) s (Memory.truncate_shards n s.cache) (
      keeps_IsWellFormed (Change.truncate_shards n) (acted s.deferred_actions s.backend) a w refl,
      keeps_IsWellFormed (Change.truncate_shards n) s.cache a v refl,
      length-take_mono n (acted s.deferred_actions s.backend).shards s.cache.shards le,
      h,
    ),
  )
  apply-Simulates (Change.put_cap top) s a (w, v, le, h) =
      (_, refl, refl, (w, keeps_IsWellFormed (Change.put_cap top) s.cache a v refl, le, h))
  apply-Simulates (Change.add_checkpoint id c) s a (w, v, le, h) = (
    _,
    refl,
    refl,
    (
      w,
      keeps_IsWellFormed (Change.add_checkpoint id c) s.cache a v refl,
      le,
      insert-HasKeysOf id c s.cache.checkpoints (acted s.deferred_actions s.backend).checkpoints h,
    ),
  )
  apply-Simulates (Change.update_checkpoint_with id f) s a (w, v, le, h) = (
    _,
    refl,
    refl,
    update_found-Follows id f (acted s.deferred_actions s.backend) s.cache
        (get id s.cache.checkpoints) (w, v, le, h)
        (keeps_IsWellFormed (Change.update_checkpoint_with id f) s.cache a v refl),
  )
  apply-Simulates (Change.remove_checkpoint id) s a (w, v, le, h) = (
    _,
    refl,
    refl,
    defer-Follows (Action.remove_checkpoint id) s (Memory.remove_checkpoint id s.cache) (
      keeps_IsWellFormed (Change.remove_checkpoint id) (acted s.deferred_actions s.backend) a w
          refl,
      keeps_IsWellFormed (Change.remove_checkpoint id) s.cache a v refl,
      le,
      remove-HasKeysOf id s.cache.checkpoints (acted s.deferred_actions s.backend).checkpoints v.2
          w.2 h,
    ),
  )
  apply-Simulates (Change.truncate_checkpoints_retaining id) s a (w, v, le, h) = (
    _,
    refl,
    refl,
    defer-Follows (Action.truncate_checkpoints_retaining id) s
        (Memory.truncate_checkpoints_retaining id s.cache)
        (
          keeps_IsWellFormed (Change.truncate_checkpoints_retaining id)
              (acted s.deferred_actions s.backend) a w refl,
          keeps_IsWellFormed (Change.truncate_checkpoints_retaining id) s.cache a v refl,
          le,
          truncated-HasKeysOf id s.cache.checkpoints
              (acted s.deferred_actions s.backend).checkpoints h,
        ),
  )

  pub apply_all-Simulates :
      (cs : List (Change H C)) (s : CachedStore H C)
      → AreAllowed level cs
      → IsCoherent s
      → (t : CachedStore H C) × (Cache.apply_all cs s ≡ some t)
        × (Direct.apply_all cs s.cache ≡ some t.cache)
        × IsCoherent t
  unfolding Cache.apply_all Direct.apply_all AreAllowed Simulates
  apply_all-Simulates [] s _ k = (s, refl, refl, k)
  apply_all-Simulates (c ∷ cs) s (a, as') k =
      let (t, e, d, kt) = apply-Simulates c s a k in
      let (u, e', d', ku) = apply_all-Simulates cs t as' kt in
      (
        u,
        >>=-some e (λ t. Cache.apply_all cs t) ∙ e',
        >>=-some d (λ t. Direct.apply_all cs t) ∙ d',
        ku,
      )
