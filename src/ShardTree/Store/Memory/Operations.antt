-- ===== src/ShardTree/Store/Memory/Operations.antt =====
-- The operations of a `MemoryShardStore` that change it, one after the other, and the well-formed
-- stores between them.
use incrementalmerkletree.Prelude.{
  ℕ, suc, ◌<◌, ◌^◌, Option, some, none, List, [], ◌∷◌, length, fmap, ◌>>=◌, >>=-some, ◌≡◌, refl, ap,
  ◌∙◌, arith, length-take,
}
use incrementalmerkletree.Level.{Level}
use incrementalmerkletree.OrderedMap.{Ord, OrderedMap, get, before, from_key, IsSorted}
use incrementalmerkletree.OrderedMap.Laws.{insert-IsSorted, remove-IsSorted, before-IsSorted}
use incrementalmerkletree.ShardTree.Prunable.{PrunableTree}
use incrementalmerkletree.ShardTree.Prunable.Located.{LocatedPrunableTree}
use incrementalmerkletree.ShardTree.Store.{Checkpoint, clear_marks_removed}
use incrementalmerkletree.ShardTree.Store.Memory.{MemoryShardStore, reinsert, update_found}
use incrementalmerkletree.ShardTree.Store.Memory
use incrementalmerkletree.ShardTree.Store.Memory.Shards.{
  addr, IsAddressed, put_result, put_in-put_result, put_result-IsAddressed, length-put_result,
  take-IsAddressed,
}

-- The calls that change a store.
pub data Change {ℓ κ} (H : Type ℓ) (C : Type κ) : Type (ℓ ⊔ κ) where
  put_shard : LocatedPrunableTree H → Change H C
  truncate_shards : ℕ → Change H C
  put_cap : PrunableTree H → Change H C
  add_checkpoint : C → Checkpoint → Change H C
  update_checkpoint_with : C → (Checkpoint → Checkpoint) → Change H C
  remove_checkpoint : C → Change H C
  truncate_checkpoints_retaining : C → Change H C

module _ {ℓ κ} {H : Type ℓ} {C : Type κ} ⦃o : Ord C⦄ where
  unfoldable pub apply : Change H C → MemoryShardStore H C → Option (MemoryShardStore H C)
  unfolding Memory.put_shard Memory.truncate_shards Memory.put_cap Memory.add_checkpoint
      Memory.update_checkpoint_with Memory.remove_checkpoint Memory.truncate_checkpoints_retaining
  apply (put_shard t) s = Memory.put_shard t s
  apply (truncate_shards n) s = some (Memory.truncate_shards n s)
  apply (put_cap top) s = some (Memory.put_cap top s)
  apply (add_checkpoint id c) s = some (Memory.add_checkpoint id c s)
  apply (update_checkpoint_with id f) s = some (Memory.update_checkpoint_with id f s).1
  apply (remove_checkpoint id) s = some (Memory.remove_checkpoint id s)
  apply (truncate_checkpoints_retaining id) s = some (Memory.truncate_checkpoints_retaining id s)

  unfoldable pub apply_all :
      List (Change H C) → MemoryShardStore H C → Option (MemoryShardStore H C)
  unfolding apply
  apply_all [] s = some s
  apply_all (c ∷ cs) s = apply c s >>= λ t. apply_all cs t

reinsert-IsSorted {κ} :
    {C : Type κ} ⦃o : Ord C⦄ (id : C) (c : Option Checkpoint) (m : OrderedMap C Checkpoint)
    → IsSorted m
    → IsSorted (reinsert id c m)
reinsert-IsSorted id none m s = s
reinsert-IsSorted id (some c) m s = insert-IsSorted id (clear_marks_removed c) m s

module _ {ℓ κ} {H : Type ℓ} {C : Type κ} ⦃o : Ord C⦄ (level : Level) where
  -- Every shard stands at its index on the level of the shards, the number of shards fits a `u64`,
  -- and the checkpoints are in the order of their identifiers.
  unfoldable pub IsWellFormed : MemoryShardStore H C → Type 0
  unfolding IsAddressed IsSorted
  IsWellFormed s =
      IsAddressed level 0 s.shards × (length s.shards < 2 ^ 64) × IsSorted s.checkpoints

  -- The call has a shard of the right level, whose index is not the last one of `u64`.
  unfoldable pub IsAllowed : Change H C → Type 0
  IsAllowed (put_shard t) = (t.root_addr.level ≡ level) × (suc t.root_addr.index < 2 ^ 64)
  IsAllowed _ = Unit

  unfoldable pub AreAllowed : List (Change H C) → Type 0
  unfolding IsAllowed
  AreAllowed [] = Unit
  AreAllowed (c ∷ cs) = IsAllowed c × AreAllowed cs

  pub put_shard-put_result :
      (t : LocatedPrunableTree H) (s : MemoryShardStore H C)
      → IsWellFormed s
      → IsAllowed (put_shard t)
      → Memory.put_shard t s
        ≡ some (record s { shards = put_result level t.root_addr.index t s.shards })
  unfolding IsWellFormed IsAllowed Memory.put_shard
  put_shard-put_result t s (h, fits, _) (e, _) =
      ap (λ o. fmap (λ shards. record s { shards = shards }) o)
        (put_in-put_result level t.root_addr.index t s.shards h fits
          (ap (λ l. addr l t.root_addr.index) e))

  update_found-IsWellFormed :
      (id : C) (f : Checkpoint → Checkpoint) (s : MemoryShardStore H C) (c : Option Checkpoint)
      → IsWellFormed s
      → IsWellFormed (update_found id f s c).1
  unfolding IsWellFormed
  update_found-IsWellFormed id f s none w = w
  update_found-IsWellFormed id f s (some c) (h, fits, sorted) =
      (h, fits, insert-IsSorted id (f c) s.checkpoints sorted)

  -- Every allowed call returns, and leaves the store well formed.
  pub apply-IsWellFormed :
      (c : Change H C) (s : MemoryShardStore H C)
      → IsAllowed c
      → IsWellFormed s
      → (t : MemoryShardStore H C) × (apply c s ≡ some t) × IsWellFormed t
  unfolding IsWellFormed IsAllowed apply Memory.truncate_shards Memory.put_cap Memory.add_checkpoint
      Memory.update_checkpoint_with Memory.remove_checkpoint Memory.truncate_checkpoints_retaining
  apply-IsWellFormed (put_shard t) s (e, lt) (h, fits, sorted) = (
    record s { shards = put_result level t.root_addr.index t s.shards },
    put_shard-put_result t s (h, fits, sorted) (e, lt),
    (
      put_result-IsAddressed level t.root_addr.index t s.shards h
          (ap (λ l. addr l t.root_addr.index) e),
      omega (arith, length-put_result level t.root_addr.index t s.shards),
      sorted,
    ),
  )
  apply-IsWellFormed (truncate_shards n) s _ (h, fits, sorted) = (
    _,
    refl,
    (take-IsAddressed level 0 n s.shards h, omega (arith, length-take n s.shards), sorted),
  )
  apply-IsWellFormed (put_cap top) s _ w = (_, refl, w)
  apply-IsWellFormed (add_checkpoint id c) s _ (h, fits, sorted) =
      (_, refl, (h, fits, insert-IsSorted id c s.checkpoints sorted))
  apply-IsWellFormed (update_checkpoint_with id f) s _ (h, fits, sorted) =
      (_, refl, update_found-IsWellFormed id f s (get id s.checkpoints) (h, fits, sorted))
  apply-IsWellFormed (remove_checkpoint id) s _ (h, fits, sorted) =
      (_, refl, (h, fits, remove-IsSorted id s.checkpoints sorted))
  apply-IsWellFormed (truncate_checkpoints_retaining id) s _ (h, fits, sorted) = (
    _,
    refl,
    (
      h,
      fits,
      reinsert-IsSorted id (get id (from_key id s.checkpoints)) (before id s.checkpoints)
          (before-IsSorted id s.checkpoints sorted),
    ),
  )

  -- From a well formed store in memory, any sequence of allowed calls that change it returns,
  -- and leaves a well formed store: every shard stands at its index on the level of the
  -- shards, their number fits 64 bits, and the checkpoints are in the strict order of their
  -- identifiers. A call is allowed unless it puts a shard of another level or of the last
  -- index of 64 bits.
  pub apply_all-IsWellFormed :
      (cs : List (Change H C)) (s : MemoryShardStore H C)
      → AreAllowed cs
      → IsWellFormed s
      → (t : MemoryShardStore H C) × (apply_all cs s ≡ some t) × IsWellFormed t
  unfolding AreAllowed apply_all
  apply_all-IsWellFormed [] s _ w = (s, refl, w)
  apply_all-IsWellFormed (c ∷ cs) s (a, as') w =
      let (t, e, wt) = apply-IsWellFormed c s a w in
      let (u, e', wu) = apply_all-IsWellFormed cs t as' wt in
      (u, >>=-some e (λ t. apply_all cs t) ∙ e', wu)
