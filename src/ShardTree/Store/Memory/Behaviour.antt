-- ===== src/ShardTree/Store/Memory/Behaviour.antt =====
-- What the queries of a `MemoryShardStore` return after a change.
use Prim.Native.Nat.{Ordering, lt, eq, gt}
use incrementalmerkletree.Prelude.{
  some, none, if◌then◌else◌, ltb, ◌==◌, fmap, length, ◌≡◌, refl, ◌∙◌, suc, ◌<◌, ◌^◌,
}
use incrementalmerkletree.Level.{Level}
use incrementalmerkletree.Address.{Address}
use incrementalmerkletree.OrderedMap.{Ord}
use incrementalmerkletree.ShardTree.Located.{empty}
use incrementalmerkletree.ShardTree.Prunable.Located.{LocatedPrunableTree}
use incrementalmerkletree.ShardTree.Store.{clear_marks_removed}
use incrementalmerkletree.ShardTree.Store.Memory.{
  MemoryShardStore, get_shard, put_shard, get_checkpoint, truncate_checkpoints_retaining,
}
use incrementalmerkletree.ShardTree.Store.Memory.Shards.{addr, get_elem?-put_result}
use incrementalmerkletree.ShardTree.Store.Memory.Checkpoints.{get-truncated, retained, kept_of}
use incrementalmerkletree.ShardTree.Store.Memory.Operations.{IsWellFormed, put_shard-put_result}
use incrementalmerkletree.ShardTree.Store.Memory.Operations as Direct

module _ {ℓ κ} {H : Type ℓ} {C : Type κ} ⦃o : Ord C⦄ where
  -- In a well formed store in memory, a shard of the level of the store, whose index is not
  -- the last of 64 bits, can be put. Afterwards the store returns it for its index, the shards
  -- that were there for other indices, empty trees for the indices that were skipped, and
  -- nothing for greater indices.
  pub put_shard-get_shard :
      (level : Level) (t : LocatedPrunableTree H) (s : MemoryShardStore H C) (a : Address)
      → IsWellFormed level s
      → t.root_addr.level ≡ level
      → suc t.root_addr.index < 2 ^ 64
      → (u : MemoryShardStore H C) × (put_shard t s ≡ some u)
        × (get_shard a u ≡ (
            if a.index == t.root_addr.index
            then some t
            else if ltb a.index (length s.shards)
            then get_shard a s
            else if ltb a.index t.root_addr.index
            then some (empty (addr level a.index))
            else none))
  unfolding get_shard empty Direct.IsAllowed
  put_shard-get_shard level t s a w e fits = (
    _,
    put_shard-put_result level t s w (e, fits),
    get_elem?-put_result level t.root_addr.index t s.shards a.index,
  )

  -- After the checkpoints of a store in memory are truncated retaining an identifier, those
  -- before it are as they were, the one with the identifier, if there is one, has lost its
  -- removed marks, and there are none after it.
  pub truncate_checkpoints_retaining-get_checkpoint :
      (id other : C) (s : MemoryShardStore H C)
      → get_checkpoint other (truncate_checkpoints_retaining id s) ≡ (elim (o.compare other id) [
        | lt ↦ get_checkpoint other s
        | eq ↦ fmap clear_marks_removed (get_checkpoint id s)
        | gt ↦ none
      ])
  unfolding retained kept_of get_checkpoint truncate_checkpoints_retaining
  truncate_checkpoints_retaining-get_checkpoint id other s =
      get-truncated id other s.checkpoints ∙ by_cases (o.compare other id)
    where
      by_cases :
          (c : Ordering)
          → kept_of c id other s.checkpoints ≡ (elim c [
            | lt ↦ get_checkpoint other s
            | eq ↦ fmap clear_marks_removed (get_checkpoint id s)
            | gt ↦ none
          ])
      by_cases lt = refl
      by_cases eq = refl
      by_cases gt = refl
