-- ===== src/ShardTree/Sharded/FromShards.antt =====
-- `root_from_shards` of shardtree/src/lib.rs, which hashes the roots of shards together.
pub mod Stack
use incrementalmerkletree.Prelude.{
  ℕ, zero, suc, ◌-◌, ◌%◌, Option, some, none, List, [], ◌∷◌, ◌++◌, if◌then◌else◌, ltb, leb, ◌==◌,
  true, false, ◌>>=◌, ◌>>?◌, Result, ok, err, map_err, fmap, inl, inr, ◌⊎◌,
}
use incrementalmerkletree.Level.{Level}
use incrementalmerkletree.Position.{Position}
use incrementalmerkletree.Address.{
  Address, Range, parent as parent_addr, address_eq, context, position_range_start,
}
use incrementalmerkletree.Hashable.{Hashable, empty_root}
use incrementalmerkletree.ShardTree.Located.{subtree}
use incrementalmerkletree.ShardTree.Prunable.Located.{
  LocatedPrunableTree, QueryError, located_root_hash,
}
use incrementalmerkletree.ShardTree.Store.Interface.{ShardStore}
use incrementalmerkletree.ShardTree.Sharded.{ShardTreeError, query, storage}

-- The indices of a range, in order.
unfoldable pub indices : ℕ → ℕ → List ℕ
indices start zero = []
indices start (suc count) = start ∷ indices (suc start) count

-- `unwrap_or`.
abbrev pub unwrap_or {ℓ} : {A : Type ℓ} → Option A → A → A
unwrap_or none d = d
unwrap_or (some a) d = a

-- A stack of roots of subtrees, from the top.
abbrev pub RootStack {ℓ} : Type ℓ → Type ℓ
RootStack H = List (Address × H)

module _ {ℓ} {H : Type ℓ} ⦃h : Hashable H⦄ where
  -- A right child is combined with its sibling at the top of the stack, and so on upwards.
  unfoldable pub push_right : RootStack H → Address → H → RootStack H
  push_right [] cur_addr cur_hash = (cur_addr, cur_hash) ∷ []
  push_right ((addr, hash) ∷ stack) cur_addr cur_hash =
      elim (address_eq (parent_addr addr) (parent_addr cur_addr)) [
        | true ↦ push_right stack (parent_addr cur_addr) (h.combine cur_addr.level hash cur_hash)
        | false ↦ (cur_addr, cur_hash) ∷ (addr, hash) ∷ stack
      ]

  unfoldable pub push_root : RootStack H → Address → H → RootStack H
  unfolding push_right
  push_root stack subtree_addr cur_hash =
      if subtree_addr.index % 2 == 0
      then (subtree_addr, cur_hash) ∷ stack
      else push_right stack subtree_addr cur_hash

  -- Combined with empty roots up to a level. The fuel is the number of levels.
  unfoldable pub pad : ℕ → Level → Address → H → Address × H
  unfolding empty_root
  pad zero level cur_addr cur_hash = (cur_addr, cur_hash)
  pad (suc fuel) level cur_addr cur_hash = elim (ltb cur_addr.level level) [
    | false ↦ (cur_addr, cur_hash)
    | true ↦
        pad fuel level (parent_addr cur_addr)
          (h.combine cur_addr.level cur_hash (empty_root cur_addr.level))
  ]

  -- The rest of the stack, from the top.
  unfoldable pub collapse : RootStack H → Address → H → Address × H
  unfolding pad
  collapse [] cur_addr cur_hash = (cur_addr, cur_hash)
  collapse ((addr, hash) ∷ stack) cur_addr cur_hash =
      let raised = pad (addr.level - cur_addr.level) addr.level cur_addr cur_hash in
      collapse stack (parent_addr raised.0) (h.combine raised.0.level hash raised.1)

  unfoldable pub stack_root : Level → RootStack H → H
  unfolding collapse pad empty_root
  stack_root level [] = empty_root level
  stack_root level ((cur_addr, cur_hash) ∷ stack) =
      let all = collapse stack cur_addr cur_hash in (pad (level - all.0.level) level all.0 all.1).1

-- A result of the store, and what it says is missing.
abbrev pub Asked {ℓ κ} : Type ℓ → Type κ → Type (ℓ ⊔ κ)
Asked E A = Option (Result (ShardTreeError E) A)

module _ {ℓ} {S H C : Type ℓ} {E : Type 0} ⦃h : Hashable H⦄ (b : ShardStore S H C E)
    (shard_height : Level) (s : S) where
  abbrev pub shard_hash :
      Address → Position → Option (LocatedPrunableTree H) → Option (Result (List Address) H)
  shard_hash subtree_addr truncate_at none = some (err (subtree_addr ∷ []))
  shard_hash subtree_addr truncate_at (some t) = located_root_hash t truncate_at

  -- The part of a shard at an address.
  abbrev pub part_hash :
      Address → Position → Option (LocatedPrunableTree H) → Option (Result (List Address) H)
  part_hash address truncate_at none = some (err (address ∷ []))
  part_hash address truncate_at (some child) = located_root_hash child truncate_at

  abbrev pub node_hash :
      Address
      → Address
      → Position
      → Option (LocatedPrunableTree H)
      → Option (Result (List Address) H)
  node_hash subtree_addr address truncate_at none = some (err (subtree_addr ∷ []))
  node_hash subtree_addr address truncate_at (some t) =
      subtree t address >>= part_hash address truncate_at

  abbrev pub incomplete_error : Result (List Address) H → Result (ShardTreeError E) H
  incomplete_error = map_err (λ missing. query (QueryError.tree_incomplete missing))

  abbrev pub asked :
      Result E (Option (LocatedPrunableTree H)) → Asked E (Option (LocatedPrunableTree H))
  asked r = some (map_err storage r)

  abbrev pub collect_root :
      RootStack H → List Address → Address → Result (List Address) H → RootStack H × List Address
  collect_root stack incomplete subtree_addr (ok cur_hash) =
      (push_root stack subtree_addr cur_hash, incomplete)
  collect_root stack incomplete subtree_addr (err new_incomplete) =
      (stack, incomplete ++ new_incomplete)

  -- The loop over the shards: the stack, and the addresses at which the tree is incomplete.
  unfoldable pub collect_roots :
      List ℕ → Position → RootStack H → List Address → Asked E (RootStack H × List Address)
  unfolding push_root located_root_hash
  collect_roots [] truncate_at stack incomplete = some (ok (stack, incomplete))
  collect_roots (subtree_idx ∷ rest) truncate_at stack incomplete =
      let subtree_addr : Address = record { level = shard_height; index = subtree_idx } in
      elim (leb truncate_at (position_range_start subtree_addr)) [
        | true ↦ some (ok (stack, incomplete))
        | false ↦ asked (b.get_shard subtree_addr s) >>? λ shard.
            shard_hash subtree_addr truncate_at shard >>= λ root.
            let next = collect_root stack incomplete subtree_addr root in
            collect_roots rest truncate_at next.0 next.1
      ]

  abbrev pub finish : Level → RootStack H × List Address → Asked E H
  finish level (stack, []) = some (ok (stack_root level stack))
  finish level (stack, a ∷ incomplete) =
      some (err (query (QueryError.tree_incomplete (a ∷ incomplete))))

  -- The address lies in one shard, or its root hashes those of several.
  unfoldable pub from_context : Address → Position → Address ⊎ Range → Asked E H
  unfolding collect_roots stack_root subtree indices
  from_context address truncate_at (inl subtree_addr) =
      if leb truncate_at (position_range_start address)
      then some (ok (empty_root address.level))
      else (asked (b.get_shard subtree_addr s) >>? λ shard.
          fmap incomplete_error (node_hash subtree_addr address truncate_at shard))
  from_context address truncate_at (inr range) =
      collect_roots (indices range.start (range.end - range.start)) truncate_at [] []
      >>? finish address.level

  unfoldable pub root_from_shards : Address → Position → Asked E H
  unfolding from_context context
  root_from_shards address truncate_at =
      from_context address truncate_at (context address shard_height)
