-- ===== src/ShardTree/Store/Memory.antt =====
-- `MemoryShardStore` of shardtree/src/store/memory.rs: the shards in a vector, the checkpoints in an
-- ordered map. Its error type has no values, so an operation returns its result, or `none` for a
-- panic.
pub mod Shards
pub mod Checkpoints
pub mod Operations
pub mod Behaviour
use incrementalmerkletree.Prelude.{
  ℕ, zero, suc, ◌+◌, ◌-◌, Option, some, none, List, [], ◌∷◌, ◌++◌, if◌then◌else◌, ltb, Bool, true,
  false, fmap, map, reverse, length, get_elem?, set, take, u64, Result, ok, err, and_then,
}
use incrementalmerkletree.Level.{Level}
use incrementalmerkletree.Address.{Address}
use incrementalmerkletree.OrderedMap.{
  Ord, OrderedMap, get, insert, remove, before, from_key, first_key, last_key,
}
use incrementalmerkletree.ShardTree.Tree.{nil}
use incrementalmerkletree.ShardTree.Located.{LocatedTree}
use incrementalmerkletree.ShardTree.Prunable.{PrunableTree}
use incrementalmerkletree.ShardTree.Prunable.Located.{LocatedPrunableTree}
use incrementalmerkletree.ShardTree.Store.{Checkpoint, clear_marks_removed}

pub record MemoryShardStore {ℓ κ} (H : Type ℓ) (C : Type κ) : Type (ℓ ⊔ κ) where
  pub shards : List (LocatedPrunableTree H)
  pub checkpoints : OrderedMap C Checkpoint
  pub cap : PrunableTree H

-- `Vec::last`.
abbrev pub last {ℓ} : {A : Type ℓ} → List A → Option A
last [] = none
last (x ∷ []) = some x
last (x ∷ y ∷ xs) = last (y ∷ xs)

-- A loop over the entries of a map, whose body may stop it.
abbrev pub for_entries {ℓ κ μ ν} :
    {K : Type ℓ} {V : Type κ} {S : Type μ} {E : Type ν}
    → (S → K → V → Result E S)
    → S
    → OrderedMap K V
    → Result E S
for_entries f s [] = ok s
for_entries f s ((k, v) ∷ m) = and_then (f s k v) (λ t. for_entries f t m)

module _ {ℓ} {H : Type ℓ} where
  -- The empty trees for `count` indices from the first one on.
  unfoldable pub fill : Level → ℕ → ℕ → List (LocatedPrunableTree H)
  fill level first zero = []
  fill level first (suc count) =
      record { root_addr = record { level = level; index = first }; root = nil }
      ∷ fill level (suc first) count

  abbrev pub index_after : Option (LocatedPrunableTree H) → ℕ
  index_after none = 0
  index_after (some s) = u64 (s.root_addr.index + 1)

  -- The loop of `put_shard`: empty trees up to and with the index of the new one.
  unfoldable pub grow :
      LocatedPrunableTree H → List (LocatedPrunableTree H) → List (LocatedPrunableTree H)
  unfolding fill
  grow subtree shards =
      let first = index_after (last shards) in
      shards ++ fill subtree.root_addr.level first (suc subtree.root_addr.index - first)

  -- `none` where the index is out of the bounds of the vector.
  unfoldable pub put_in :
      LocatedPrunableTree H → List (LocatedPrunableTree H) → Option (List (LocatedPrunableTree H))
  unfolding grow
  put_in subtree shards =
      let grown = grow subtree shards in
      if ltb subtree.root_addr.index (length grown)
      then some (set grown subtree.root_addr.index subtree)
      else none

module _ {ℓ κ} {H : Type ℓ} {C : Type κ} where
  unfoldable pub empty : MemoryShardStore H C
  empty = record { shards = []; checkpoints = []; cap = nil }

  unfoldable pub get_shard : Address → MemoryShardStore H C → Option (LocatedPrunableTree H)
  get_shard shard_root s = get_elem? s.shards shard_root.index

  unfoldable pub last_shard : MemoryShardStore H C → Option (LocatedPrunableTree H)
  last_shard s = last s.shards

  unfoldable pub put_shard :
      LocatedPrunableTree H → MemoryShardStore H C → Option (MemoryShardStore H C)
  unfolding put_in
  put_shard subtree s = fmap (λ shards. record s { shards = shards }) (put_in subtree s.shards)

  unfoldable pub get_shard_roots : MemoryShardStore H C → List Address
  get_shard_roots s = map (λ t. t.root_addr) s.shards

  unfoldable pub truncate_shards : ℕ → MemoryShardStore H C → MemoryShardStore H C
  truncate_shards shard_index s = record s { shards = take shard_index s.shards }

  unfoldable pub get_cap : MemoryShardStore H C → PrunableTree H
  get_cap s = s.cap

  unfoldable pub put_cap : PrunableTree H → MemoryShardStore H C → MemoryShardStore H C
  put_cap cap s = record s { cap = cap }

  unfoldable pub checkpoint_count : MemoryShardStore H C → ℕ
  checkpoint_count s = length s.checkpoints

  unfoldable pub get_checkpoint_at_depth : ℕ → MemoryShardStore H C → Option (C × Checkpoint)
  get_checkpoint_at_depth depth s = get_elem? (reverse s.checkpoints) depth

  unfoldable pub min_checkpoint_id : MemoryShardStore H C → Option C
  unfolding first_key
  min_checkpoint_id s = first_key s.checkpoints

  unfoldable pub max_checkpoint_id : MemoryShardStore H C → Option C
  unfolding last_key
  max_checkpoint_id s = last_key s.checkpoints

  -- The callback, with what it has gathered so far, on the first `limit` checkpoints.
  unfoldable pub with_checkpoints {μ ν} :
      {R : Type μ} {E : Type ν}
      → ℕ
      → (R → C → Checkpoint → Result E R)
      → R
      → MemoryShardStore H C
      → Result E R
  with_checkpoints limit callback r s = for_entries callback r (take limit s.checkpoints)

  unfoldable pub for_each_checkpoint {μ ν} :
      {R : Type μ} {E : Type ν}
      → ℕ
      → (R → C → Checkpoint → Result E R)
      → R
      → MemoryShardStore H C
      → Result E R
  for_each_checkpoint limit callback r s = for_entries callback r (take limit s.checkpoints)

-- The entry at which the map was split goes back, without its marks.
abbrev pub reinsert {κ} :
    {C : Type κ} ⦃o : Ord C⦄
    → C
    → Option Checkpoint
    → OrderedMap C Checkpoint
    → OrderedMap C Checkpoint
reinsert id none m = m
reinsert id (some c) m = insert id (clear_marks_removed c) m

module _ {ℓ κ} {H : Type ℓ} {C : Type κ} ⦃o : Ord C⦄ where
  unfoldable pub add_checkpoint : C → Checkpoint → MemoryShardStore H C → MemoryShardStore H C
  unfolding insert
  add_checkpoint id c s = record s { checkpoints = insert id c s.checkpoints }

  unfoldable pub get_checkpoint : C → MemoryShardStore H C → Option Checkpoint
  unfolding get
  get_checkpoint id s = get id s.checkpoints

  abbrev pub update_found :
      C
      → (Checkpoint → Checkpoint)
      → MemoryShardStore H C
      → Option Checkpoint
      → Bool × MemoryShardStore H C
  update_found id update s none = (false, s)
  update_found id update s (some c) =
      (true, record s { checkpoints = insert id (update c) s.checkpoints })

  -- The callback cannot fail, and replaces the checkpoint where there is one.
  unfoldable pub update_checkpoint_with :
      C → (Checkpoint → Checkpoint) → MemoryShardStore H C → Bool × MemoryShardStore H C
  unfolding get insert
  update_checkpoint_with id update s = update_found id update s (get id s.checkpoints)

  unfoldable pub remove_checkpoint : C → MemoryShardStore H C → MemoryShardStore H C
  unfolding remove
  remove_checkpoint id s = record s { checkpoints = remove id s.checkpoints }

  unfoldable pub truncate_checkpoints_retaining : C → MemoryShardStore H C → MemoryShardStore H C
  unfolding before from_key get insert clear_marks_removed
  truncate_checkpoints_retaining id s = record s {
    checkpoints = reinsert id (get id (from_key id s.checkpoints)) (before id s.checkpoints);
  }
