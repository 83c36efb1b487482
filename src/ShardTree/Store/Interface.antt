-- ===== src/ShardTree/Store/Interface.antt =====
-- The trait `ShardStore` of shardtree/src/store.rs, as a record of its operations, and
-- `MemoryShardStore` of shardtree/src/store/memory.rs as one. An operation with `&self` is a
-- function of the store; one with `&mut self` is an effect.
use incrementalmerkletree.Prelude.{ℕ, Option, some, List, Bool, Result, ok, err, fmap}
use incrementalmerkletree.Address.{Address}
use incrementalmerkletree.OrderedMap.{Ord}
use incrementalmerkletree.ShardTree.Prunable.{PrunableTree}
use incrementalmerkletree.ShardTree.Prunable.Located.{LocatedPrunableTree}
use incrementalmerkletree.ShardTree.Store.{Checkpoint}
use incrementalmerkletree.ShardTree.Store.Effect.{Effect}
use incrementalmerkletree.ShardTree.Store.Memory.{MemoryShardStore}
use incrementalmerkletree.ShardTree.Store.Memory

pub record ShardStore {ℓ} (S H C : Type ℓ) (E : Type 0) : Type (ℓ + 1) where
  pub get_shard : Address → S → Result E (Option (LocatedPrunableTree H))
  pub last_shard : S → Result E (Option (LocatedPrunableTree H))
  pub put_shard : LocatedPrunableTree H → Effect S E (Unit {0})
  pub get_shard_roots : S → Result E (List Address)
  pub truncate_shards : ℕ → Effect S E (Unit {0})
  pub get_cap : S → Result E (PrunableTree H)
  pub put_cap : PrunableTree H → Effect S E (Unit {0})
  pub min_checkpoint_id : S → Result E (Option C)
  pub max_checkpoint_id : S → Result E (Option C)
  pub add_checkpoint : C → Checkpoint → Effect S E (Unit {0})
  pub checkpoint_count : S → Result E ℕ
  pub get_checkpoint_at_depth : ℕ → S → Result E (Option (C × Checkpoint))
  pub get_checkpoint : C → S → Result E (Option Checkpoint)
  pub with_checkpoints : {R : Type ℓ} → ℕ → (R → C → Checkpoint → Result E R) → R → Effect S E R
  pub for_each_checkpoint :
      {R : Type ℓ} → ℕ → (R → C → Checkpoint → Result E R) → R → S → Result E R
  pub update_checkpoint_with : C → (Checkpoint → Result E Checkpoint) → Effect S E Bool
  pub remove_checkpoint : C → Effect S E (Unit {0})
  pub truncate_checkpoints_retaining : C → Effect S E (Unit {0})

-- `Infallible`, the error type of stores in memory.
pub data Infallible : Type 0 where

-- `expect("error type is Infallible")`.
abbrev pub infallible {ℓ} : {A : Type ℓ} → Result Infallible A → A
infallible (ok a) = a
infallible (err e) = elim e [ ]

module _ {ℓ} {S : Type ℓ} where
  -- A change of the store that cannot fail.
  abbrev pub modify : (S → S) → Effect S Infallible (Unit {0})
  modify f s = some (ok tt, f s)

  -- A change of the store that may panic.
  abbrev pub try_modify : (S → Option S) → Effect S Infallible (Unit {0})
  try_modify f s = fmap (λ t. (ok tt, t)) (f s)

unfoldable pub memory_store {ℓ} :
    {H C : Type ℓ} ⦃o : Ord C⦄ → ShardStore (MemoryShardStore H C) H C Infallible
memory_store = record {
  get_shard = λ a s. ok (Memory.get_shard a s);
  last_shard = λ s. ok (Memory.last_shard s);
  put_shard = λ t. try_modify (Memory.put_shard t);
  get_shard_roots = λ s. ok (Memory.get_shard_roots s);
  truncate_shards = λ n. modify (Memory.truncate_shards n);
  get_cap = λ s. ok (Memory.get_cap s);
  put_cap = λ cap. modify (Memory.put_cap cap);
  min_checkpoint_id = λ s. ok (Memory.min_checkpoint_id s);
  max_checkpoint_id = λ s. ok (Memory.max_checkpoint_id s);
  add_checkpoint = λ id c. modify (Memory.add_checkpoint id c);
  checkpoint_count = λ s. ok (Memory.checkpoint_count s);
  get_checkpoint_at_depth = λ depth s. ok (Memory.get_checkpoint_at_depth depth s);
  get_checkpoint = λ id s. ok (Memory.get_checkpoint id s);
  with_checkpoints = λ limit f r s. some (Memory.with_checkpoints limit f r s, s);
  for_each_checkpoint = λ limit f r s. Memory.for_each_checkpoint limit f r s;
  update_checkpoint_with = λ id f s.
      let changed = Memory.update_checkpoint_with id (λ c. infallible (f c)) s in
      some (ok changed.0, changed.1);
  remove_checkpoint = λ id. modify (Memory.remove_checkpoint id);
  truncate_checkpoints_retaining = λ id. modify (Memory.truncate_checkpoints_retaining id);
}
