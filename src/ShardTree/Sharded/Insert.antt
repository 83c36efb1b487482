-- ===== src/ShardTree/Sharded/Insert.antt =====
-- Insertion into a `ShardTree`: `insert`, `append`, `insert_frontier`, `insert_frontier_nodes` and
-- `insert_tree` of shardtree/src/lib.rs, and `batch_insert` of shardtree/src/batch.rs.
use incrementalmerkletree.Prelude.{
  ℕ, zero, suc, Option, some, none, List, [], ◌∷◌, ◌++◌, if◌then◌else◌, ltb, leb, true, false,
  length, inl, inr, ◌⊎◌,
}
use incrementalmerkletree.Retention.{Retention, Marking}
use incrementalmerkletree.Retention as Retain
use incrementalmerkletree.Level.{Level}
use incrementalmerkletree.Position.{Position}
use incrementalmerkletree.Position
use incrementalmerkletree.Address.{
  Address, Range, context, next_at_level, above_position, position_range_start,
}
use incrementalmerkletree.Hashable.{Hashable}
use incrementalmerkletree.Frontier.{NonEmptyFrontier}
use incrementalmerkletree.Frontier.Bounded.{Frontier}
use incrementalmerkletree.OrderedMap.{Ord, OrderedMap}
use incrementalmerkletree.ShardTree.Tree.{leaf, is_nil}
use incrementalmerkletree.ShardTree.Flags.{ephemeral}
use incrementalmerkletree.ShardTree.Located.{empty, decompose_to_level}
use incrementalmerkletree.ShardTree.Prunable.{Eq, is_full, contains_marked}
use incrementalmerkletree.ShardTree.Prunable.Located.{LocatedPrunableTree}
use incrementalmerkletree.ShardTree.Prunable.Located.Insert.{
  IncompleteAt, InsertionError, insert_subtree,
}
use incrementalmerkletree.ShardTree.Prunable.Located.Batch.{BatchInsertionResult}
use incrementalmerkletree.ShardTree.Prunable.Located.Batch
use incrementalmerkletree.ShardTree.Prunable.Located.FrontierNodes
use incrementalmerkletree.ShardTree.Store.{tree_empty, checkpoint_at}
use incrementalmerkletree.ShardTree.Store.Effect.{Effect, return, fail, expect, ◌>>=◌, for_each}
use incrementalmerkletree.ShardTree.Store.Interface.{ShardStore}
use incrementalmerkletree.ShardTree.Sharded.{
  ShardTreeError, root_addr, subtree_addr, max_subtree_index, ask, stored, inserting,
}
use incrementalmerkletree.ShardTree.Sharded.Checkpoints.{at_least}
use incrementalmerkletree.ShardTree.Sharded.Excess.{prune_excess_checkpoints}

-- `unwrap_or_else(|| LocatedTree::empty(addr))`.
abbrev pub or_empty_at {ℓ} :
    {H : Type ℓ} → Address → Option (LocatedPrunableTree H) → LocatedPrunableTree H
or_empty_at addr none = empty addr
or_empty_at addr (some t) = t

module _ {ℓ} {S H C : Type ℓ} {E : Type 0} ⦃h : Hashable H⦄ ⦃e : Eq H⦄ ⦃o : Ord C⦄
    (b : ShardStore S H C E) (depth shard_height : Level) where
  -- The cap retains the nodes on the level of the shards and above.
  unfoldable pub insert_in_cap : LocatedPrunableTree H → Effect S (ShardTreeError E) (Unit {0})
  unfolding insert_subtree root_addr
  insert_in_cap to_insert = ask b.get_cap >>= λ top.
      inserting
        (insert_subtree (record { root_addr = root_addr depth; root = top }) to_insert false)
      >>= λ (updated_cap, _). stored (b.put_cap updated_cap.root)

  unfoldable pub insert_in_shard :
      LocatedPrunableTree H → Address ⊎ Range → Effect S (ShardTreeError E) (Unit {0})
  unfolding insert_subtree
  insert_in_shard to_insert (inr range) = return tt
  insert_in_shard to_insert (inl shard_root_addr) = ask (b.get_shard shard_root_addr) >>= λ found.
      inserting (insert_subtree (or_empty_at shard_root_addr found) to_insert false)
      >>= λ (updated_shard, _). stored (b.put_shard updated_shard)

  -- The method `insert`.
  unfoldable pub insert_root : Address → H → Effect S (ShardTreeError E) (Unit {0})
  unfolding insert_in_cap insert_in_shard context root_addr
  insert_root addr value =
      let to_insert : LocatedPrunableTree H = record {
        root_addr = addr;
        root = leaf (value, ephemeral);
      } in
      if ltb depth addr.level
      then fail (ShardTreeError.insert (InsertionError.not_contained addr))
      else ((if leb shard_height addr.level then insert_in_cap to_insert else return tt) >>= λ _.
          insert_in_shard to_insert (context addr shard_height))

  -- A checkpoint has to come after those that are there.
  abbrev pub check_order : Retention C → Effect S (ShardTreeError E) (Unit {0})
  check_order (Retention.checkpoint id marking) = ask b.max_checkpoint_id >>= λ max_id.
      if at_least max_id id
      then fail (ShardTreeError.insert InsertionError.checkpoint_out_of_order)
      else return tt
  check_order _ = return tt

  -- The last shard, or the one after it if it is full.
  unfoldable pub append_to_last :
      H
      → Retention C
      → Option (LocatedPrunableTree H)
      → Effect S (ShardTreeError E) (LocatedPrunableTree H × Position × Option C)
  unfolding Batch.append is_full next_at_level max_subtree_index
  append_to_last value retention none =
      inserting (Batch.append (empty (record { level = shard_height; index = 0 })) value retention)
  append_to_last value retention (some subtree) =
      if is_full subtree.root
      then (if ltb subtree.root_addr.index (max_subtree_index depth shard_height)
          then inserting (Batch.append (empty (next_at_level subtree.root_addr)) value retention)
          else fail (ShardTreeError.insert InsertionError.tree_full))
      else inserting (Batch.append subtree value retention)

  abbrev pub add_checkpoint_if : Option C → Position → Effect S (ShardTreeError E) (Unit {0})
  add_checkpoint_if none position = return tt
  add_checkpoint_if (some c) position = stored (b.add_checkpoint c (checkpoint_at position))

  unfoldable pub append : ℕ → H → Retention C → Effect S (ShardTreeError E) (Unit {0})
  unfolding append_to_last prune_excess_checkpoints checkpoint_at
  append max_checkpoints value retention = check_order retention >>= λ _.
      ask b.last_shard >>= λ last.
      append_to_last value retention last >>= λ (append_result, position, checkpoint_id).
      stored (b.put_shard append_result) >>= λ _. add_checkpoint_if checkpoint_id position >>= λ _.
      prune_excess_checkpoints b shard_height max_checkpoints

  abbrev pub insert_supertree :
      Retention C → Option (LocatedPrunableTree H) → Effect S (ShardTreeError E) (Unit {0})
  insert_supertree leaf_retention none = return tt
  insert_supertree leaf_retention (some supertree) = ask b.get_cap >>= λ top.
      inserting (
        insert_subtree (record { root_addr = root_addr depth; root = top }) supertree
          (Retain.is_marked leaf_retention))
      >>= λ (new_cap, _). stored (b.put_cap new_cap.root)

  unfoldable pub insert_frontier_nodes :
      ℕ → NonEmptyFrontier H → Retention C → Effect S (ShardTreeError E) (Unit {0})
  unfolding FrontierNodes.insert_frontier_nodes above_position insert_subtree Retain.is_marked
      root_addr checkpoint_at prune_excess_checkpoints
  insert_frontier_nodes max_checkpoints frontier leaf_retention =
      let subtree_root_addr = above_position shard_height frontier.position in
      ask (b.get_shard subtree_root_addr) >>= λ found.
      inserting (
        FrontierNodes.insert_frontier_nodes (or_empty_at subtree_root_addr found) frontier
          leaf_retention)
      >>= λ (updated_subtree, supertree). stored (b.put_shard updated_subtree) >>= λ _.
          insert_supertree leaf_retention supertree >>= λ _.
          add_checkpoint_if (Batch.checkpoint_id leaf_retention) frontier.position >>= λ _.
          prune_excess_checkpoints b shard_height max_checkpoints

  -- The empty frontier: only a checkpoint without a mark leaves something.
  unfoldable pub insert_empty_frontier : Retention C → Effect S (ShardTreeError E) (Unit {0})
  unfolding tree_empty
  insert_empty_frontier Retention.ephemeral = return tt
  insert_empty_frontier Retention.reference = return tt
  insert_empty_frontier (Retention.checkpoint id Marking.none) =
      stored (b.add_checkpoint id tree_empty)
  insert_empty_frontier (Retention.checkpoint id Marking.reference) =
      stored (b.add_checkpoint id tree_empty)
  insert_empty_frontier Retention.marked =
      fail (ShardTreeError.insert InsertionError.marked_retention_invalid)
  insert_empty_frontier (Retention.checkpoint id Marking.marked) =
      fail (ShardTreeError.insert InsertionError.marked_retention_invalid)

  unfoldable pub insert_frontier :
      ℕ → Frontier H → Retention C → Effect S (ShardTreeError E) (Unit {0})
  unfolding insert_frontier_nodes insert_empty_frontier
  insert_frontier max_checkpoints frontier leaf_retention = elim frontier.frontier [
    | some nonempty_frontier ↦
        insert_frontier_nodes max_checkpoints nonempty_frontier leaf_retention
    | none ↦ insert_empty_frontier leaf_retention
  ]

  -- The loop of `insert_tree`, which passes over empty subtrees.
  unfoldable pub insert_parts :
      List (LocatedPrunableTree H)
      → List IncompleteAt
      → Effect S (ShardTreeError E) (List IncompleteAt)
  unfolding is_nil subtree_addr position_range_start contains_marked insert_subtree
  insert_parts [] all_incomplete = return all_incomplete
  insert_parts (subtree ∷ rest) all_incomplete =
      let addr = subtree_addr shard_height (position_range_start subtree.root_addr) in
      elim (is_nil subtree.root) [
        | true ↦ insert_parts rest all_incomplete
        | false ↦ ask (b.get_shard addr) >>= λ found.
            inserting
              (insert_subtree (or_empty_at addr found) subtree (contains_marked subtree.root))
            >>= λ (replacement_shard, incomplete). stored (b.put_shard replacement_shard) >>= λ _.
                insert_parts rest (all_incomplete ++ incomplete)
      ]

  unfoldable pub add_checkpoints : OrderedMap C Position → Effect S (ShardTreeError E) (Unit {0})
  unfolding checkpoint_at
  add_checkpoints = for_each (λ c. stored (b.add_checkpoint c.0 (checkpoint_at c.1)))

  unfoldable pub insert_tree :
      ℕ
      → LocatedPrunableTree H
      → OrderedMap C Position
      → Effect S (ShardTreeError E) (List IncompleteAt)
  unfolding insert_parts add_checkpoints decompose_to_level prune_excess_checkpoints
  insert_tree max_checkpoints tree checkpoints =
      expect (decompose_to_level tree shard_height) >>= λ parts.
      insert_parts parts [] >>= λ all_incomplete. add_checkpoints checkpoints >>= λ _.
      prune_excess_checkpoints b shard_height max_checkpoints >>= λ _. return all_incomplete

  -- The loop of `batch_insert`; every round takes a value, so their number is enough fuel.
  unfoldable pub batch_rounds :
      ℕ
      → Address
      → Position
      → List (H × Retention C)
      → Option Position
      → List IncompleteAt
      → Effect S (ShardTreeError E) (Option (Position × List IncompleteAt))
  unfolding Batch.batch_insert add_checkpoints next_at_level Position.add
  batch_rounds fuel addr start [] none incomplete = return none
  batch_rounds fuel addr start [] (some p) incomplete = return (some (p, incomplete))
  batch_rounds zero addr start (v ∷ values) max_position incomplete = expect none
  batch_rounds (suc fuel) addr start (v ∷ values) max_position incomplete =
      ask (b.get_shard addr) >>= λ found.
      inserting (Batch.batch_insert (or_empty_at addr found) start (v ∷ values)) >>= λ inserted.
      expect inserted >>= λ res. stored (b.put_shard res.subtree) >>= λ _.
      add_checkpoints res.checkpoints >>= λ _.
      batch_rounds fuel (next_at_level addr) (Position.add res.max_insert_position 1) res.remainder
        (some res.max_insert_position) (incomplete ++ res.incomplete)

  unfoldable pub batch_insert :
      ℕ
      → Position
      → List (H × Retention C)
      → Effect S (ShardTreeError E) (Option (Position × List IncompleteAt))
  unfolding batch_rounds subtree_addr prune_excess_checkpoints
  batch_insert max_checkpoints start values =
      batch_rounds (length values) (subtree_addr shard_height start) start values none []
      >>= λ inserted.
          prune_excess_checkpoints b shard_height max_checkpoints >>= λ _. return inserted
