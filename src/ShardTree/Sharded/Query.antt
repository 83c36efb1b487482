-- ===== src/ShardTree/Sharded/Query.antt =====
-- Queries of a `ShardTree` of shardtree/src/lib.rs: `max_leaf_position`, the roots and the witnesses
-- at checkpoints, with and without caching, and `frontier`.
use incrementalmerkletree.Prelude.{
  ℕ, zero, suc, ◌-◌, Option, some, none, List, [], ◌∷◌, ◌++◌, if◌then◌else◌, ltb, leb, true, false,
  Result, ok, err, fmap,
}
use incrementalmerkletree.Level.{Level}
use incrementalmerkletree.Position.{Position}
use incrementalmerkletree.Position
use incrementalmerkletree.Address.{
  Address, parent, sibling, address_eq, is_right_child, from_position,
}
use incrementalmerkletree.Hashable.{Hashable, MerklePath, empty_root}
use incrementalmerkletree.Hashable
use incrementalmerkletree.Frontier.{NonEmptyFrontier}
use incrementalmerkletree.Frontier as NonEmpty
use incrementalmerkletree.Frontier.Bounded.{Frontier}
use incrementalmerkletree.Frontier.Bounded
use incrementalmerkletree.ShardTree.Prunable.Located.{
  LocatedPrunableTree, QueryError, FrontierError, tree_max_position, witness, frontier_ommers,
}
use incrementalmerkletree.ShardTree.Store.{Checkpoint, position}
use incrementalmerkletree.ShardTree.Store.Effect.{
  Effect, return, fail, expect, lift, with_error, ◌>>=◌,
}
use incrementalmerkletree.ShardTree.Store.Interface.{ShardStore}
use incrementalmerkletree.ShardTree.Sharded.{
  ShardTreeError, query, root_addr, subtree_addr, ask, querying,
}
use incrementalmerkletree.ShardTree.Sharded.Root.{root, root_caching}

module _ {ℓ} {S H C : Type ℓ} {E : Type 0} ⦃h : Hashable H⦄ (b : ShardStore S H C E)
    (depth shard_height : Level) where
  abbrev pub max_position_of : Option (LocatedPrunableTree H) → Option (Option Position)
  max_position_of none = some none
  max_position_of (some t) = tree_max_position t

  abbrev pub position_at : Option (C × Checkpoint) → Effect S (ShardTreeError E) (Option Position)
  position_at none = fail (query QueryError.checkpoint_pruned)
  position_at (some (id, c)) = return (position c)

  unfoldable pub max_leaf_position : Option ℕ → Effect S (ShardTreeError E) (Option Position)
  unfolding tree_max_position position
  max_leaf_position none = ask b.last_shard >>= λ last. expect (max_position_of last)
  max_leaf_position (some checkpoint_depth) =
      ask (b.get_checkpoint_at_depth checkpoint_depth) >>= position_at

  -- The root of the tree up to a position.
  abbrev pub root_up_to :
      (Address → Position → Effect S (ShardTreeError E) H)
      → Option Position
      → Effect S (ShardTreeError E) (Option H)
  root_up_to compute none = return (some (empty_root depth))
  root_up_to compute (some pos) =
      compute (root_addr depth) (Position.add pos 1) >>= λ value. return (some value)

  abbrev pub root_at :
      (Address → Position → Effect S (ShardTreeError E) H)
      → Option Checkpoint
      → Effect S (ShardTreeError E) (Option H)
  root_at compute none = return none
  root_at compute (some c) = root_up_to compute (position c)

  unfoldable pub root_at_checkpoint_id : C → Effect S (ShardTreeError E) (Option H)
  unfolding root root_addr position empty_root Position.add
  root_at_checkpoint_id checkpoint =
      ask (b.get_checkpoint checkpoint) >>= root_at (root b depth shard_height)

  unfoldable pub root_at_checkpoint_id_caching : C → Effect S (ShardTreeError E) (Option H)
  unfolding root_caching root_addr position empty_root Position.add
  root_at_checkpoint_id_caching checkpoint =
      ask (b.get_checkpoint checkpoint) >>= root_at (root_caching b depth shard_height)

  -- `CheckpointPruned` is no error here: there is no root to return.
  abbrev pub or_pruned :
      (Option Position → Effect S (ShardTreeError E) (Option H))
      → Option (Result (ShardTreeError E) (Option Position) × S)
      → Option (Result (ShardTreeError E) (Option H) × S)
  or_pruned f none = none
  or_pruned f (some (err (query QueryError.checkpoint_pruned), s)) = some (ok none, s)
  or_pruned f (some (err other, s)) = some (err other, s)
  or_pruned f (some (ok pos, s)) = f pos s

  unfoldable pub root_at_checkpoint_depth : Option ℕ → Effect S (ShardTreeError E) (Option H)
  unfolding max_leaf_position root root_addr empty_root Position.add
  root_at_checkpoint_depth checkpoint_depth s =
      or_pruned (root_up_to (root b depth shard_height)) (max_leaf_position checkpoint_depth s)

  unfoldable pub root_at_checkpoint_depth_caching :
      Option ℕ → Effect S (ShardTreeError E) (Option H)
  unfolding max_leaf_position root_caching root_addr empty_root Position.add
  root_at_checkpoint_depth_caching checkpoint_depth s =
      or_pruned (root_up_to (root_caching b depth shard_height))
        (max_leaf_position checkpoint_depth s)

  -- The loop of `witness_helper` above the shard. The fuel is the number of levels to the root.
  unfoldable pub witness_above :
      (Address → Position → Effect S (ShardTreeError E) H)
      → ℕ
      → Address
      → Position
      → List H
      → Effect S (ShardTreeError E) (List H)
  unfolding root_addr
  witness_above compute zero cur_addr truncate_at found =
      if address_eq cur_addr (root_addr depth) then return found else expect none
  witness_above compute (suc levels) cur_addr truncate_at found =
      elim (address_eq cur_addr (root_addr depth)) [
        | true ↦ return found
        | false ↦ compute (sibling cur_addr) truncate_at >>= λ value.
            witness_above compute levels (parent cur_addr) truncate_at (found ++ value ∷ [])
      ]

  abbrev pub witness_in :
      Address
      → Option (LocatedPrunableTree H)
      → Position
      → Position
      → Option (Result QueryError (List H))
  witness_in addr none pos truncate_at = some (err (QueryError.tree_incomplete (addr ∷ [])))
  witness_in addr (some shard) pos truncate_at = witness shard pos truncate_at

  unfoldable pub witness_helper :
      (Address → Position → Effect S (ShardTreeError E) H)
      → Position
      → Position
      → Effect S (ShardTreeError E) (MerklePath H)
  unfolding witness_above subtree_addr witness Position.add Hashable.from_parts
  witness_helper compute pos as_of =
      let addr = subtree_addr shard_height pos in
      ask (b.get_shard addr) >>= λ found.
      querying (witness_in addr found pos (Position.add as_of 1)) >>= λ below.
      witness_above compute (depth - addr.level) addr (Position.add as_of 1) below >>= λ path_elems.
      expect (Hashable.from_parts depth path_elems pos)

  unfoldable pub witness_internal : Position → Position → Effect S (ShardTreeError E) (MerklePath H)
  unfolding witness_helper root
  witness_internal = witness_helper (root b depth shard_height)

  unfoldable pub witness_internal_caching :
      Position → Position → Effect S (ShardTreeError E) (MerklePath H)
  unfolding witness_helper root_caching
  witness_internal_caching = witness_helper (root_caching b depth shard_height)

  -- The position of the checkpoint, which may not be before the leaf.
  abbrev pub as_of_position : Position → Option Position → Effect S (ShardTreeError E) Position
  as_of_position pos none = fail (query (QueryError.not_contained (from_position pos)))
  as_of_position pos (some p) =
      if leb pos p then return p else fail (query (QueryError.not_contained (from_position pos)))

  abbrev pub witness_at :
      (Position → Position → Effect S (ShardTreeError E) (MerklePath H))
      → Position
      → Option Checkpoint
      → Effect S (ShardTreeError E) (Option (MerklePath H))
  witness_at compute pos none = return none
  witness_at compute pos (some c) =
      as_of_position pos (position c) >>= λ as_of. compute pos as_of >>= λ path. return (some path)

  unfoldable pub witness_at_checkpoint_depth :
      Position → ℕ → Effect S (ShardTreeError E) (Option (MerklePath H))
  unfolding witness_internal position from_position
  witness_at_checkpoint_depth pos checkpoint_depth =
      ask (b.get_checkpoint_at_depth checkpoint_depth) >>= λ found.
      witness_at witness_internal pos (fmap (λ (id, c). c) found)

  unfoldable pub witness_at_checkpoint_depth_caching :
      Position → ℕ → Effect S (ShardTreeError E) (Option (MerklePath H))
  unfolding witness_internal_caching position from_position
  witness_at_checkpoint_depth_caching pos checkpoint_depth =
      ask (b.get_checkpoint_at_depth checkpoint_depth) >>= λ found.
      witness_at witness_internal_caching pos (fmap (λ (id, c). c) found)

  unfoldable pub witness_at_checkpoint_id :
      Position → C → Effect S (ShardTreeError E) (Option (MerklePath H))
  unfolding witness_internal position from_position
  witness_at_checkpoint_id pos checkpoint_id =
      ask (b.get_checkpoint checkpoint_id) >>= witness_at witness_internal pos

  unfoldable pub witness_at_checkpoint_id_caching :
      Position → C → Effect S (ShardTreeError E) (Option (MerklePath H))
  unfolding witness_internal_caching position from_position
  witness_at_checkpoint_id_caching pos checkpoint_id =
      ask (b.get_checkpoint checkpoint_id) >>= witness_at witness_internal_caching pos

  -- The loop of `frontier` above the last shard. The fuel is the number of levels to the root.
  unfoldable pub ommers_above :
      ℕ → Address → Position → List H → Effect S (ShardTreeError E) (List H)
  unfolding root is_right_child
  ommers_above zero cur_addr truncate_at ommers = return ommers
  ommers_above (suc levels) cur_addr truncate_at ommers = elim (ltb cur_addr.level depth) [
    | false ↦ return ommers
    | true ↦ elim (is_right_child cur_addr) [
      | true ↦ root b depth shard_height (sibling cur_addr) truncate_at >>= λ value.
          ommers_above levels (parent cur_addr) truncate_at (ommers ++ value ∷ [])
      | false ↦ ommers_above levels (parent cur_addr) truncate_at ommers
    ]
  ]

  -- Other errors of the frontier than a missing node name the shard.
  abbrev pub frontier_error : Address → FrontierError → ShardTreeError E
  frontier_error shard_addr (FrontierError.tree_incomplete address) =
      query (QueryError.tree_incomplete (address ∷ []))
  frontier_error shard_addr other = query (QueryError.tree_incomplete (shard_addr ∷ []))

  abbrev pub frontier_result :
      Result NonEmpty.FrontierError (Frontier H) → Effect S (ShardTreeError E) (Frontier H)
  frontier_result (ok f) = return f
  frontier_result (err other) = fail (query (QueryError.tree_incomplete (root_addr depth ∷ [])))

  unfoldable pub frontier_from :
      Address → Option (Position × H × List H) → Effect S (ShardTreeError E) (Frontier H)
  unfolding ommers_above root_addr Bounded.from_parts Bounded.empty Position.add
  frontier_from shard_addr none = return Bounded.empty
  frontier_from shard_addr (some (pos, value, ommers)) =
      ommers_above (depth - shard_addr.level) shard_addr (Position.add pos 1) ommers >>= λ all.
      frontier_result (Bounded.from_parts depth pos value all)

  abbrev pub frontier_of : Option (LocatedPrunableTree H) → Effect S (ShardTreeError E) (Frontier H)
  frontier_of none = return Bounded.empty
  frontier_of (some last_shard) =
      with_error (frontier_error last_shard.root_addr) (lift (frontier_ommers last_shard))
      >>= frontier_from last_shard.root_addr

  unfoldable pub tree_frontier : Effect S (ShardTreeError E) (Frontier H)
  unfolding frontier_from frontier_ommers
  tree_frontier = ask b.last_shard >>= frontier_of
