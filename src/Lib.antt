-- ===== src/Lib.antt =====
-- incrementalmerkletree: Merkle trees that grow at the right, as positions, addresses, frontiers
-- and prunable trees. Two crates of the repository are modelled; the hash is a parameter of which
-- nothing is assumed.
--
-- incrementalmerkletree/src/lib.rs:
--   Retention.antt (Retention, Marking, Source), Level.antt, Position.antt, Address.antt,
--   WitnessAddrs.antt (the iterator of Position::witness_addrs), Hashable.antt (the trait and
--   MerklePath).
-- incrementalmerkletree/src/frontier.rs:
--   Frontier.antt (NonEmptyFrontier), Frontier/Bounded.antt (Frontier, of a depth),
--   CommitmentTree.antt (the legacy tree and PathFiller).
-- incrementalmerkletree/src/witness.rs: IncrementalWitness.antt.
-- shardtree/src/tree.rs: ShardTree/Tree.antt (Tree with its Node), ShardTree/Located.antt.
-- shardtree/src/prunable.rs:
--   ShardTree/Flags.antt (RetentionFlags), ShardTree/Prunable.antt (PrunableTree),
--   ShardTree/Prunable/Located.antt (queries, witnesses, truncation, frontiers),
--   ShardTree/Prunable/Located/Insert.antt (insert_subtree), and
--   ShardTree/Prunable/Located/FrontierNodes.antt (from_frontier_parts, clear_flags).
-- shardtree/src/batch.rs, and append of shardtree/src/prunable.rs:
--   ShardTree/Prunable/Located/Batch.antt; the loop of ShardTree::batch_insert stands in
--   ShardTree/Sharded/Insert.antt.
-- shardtree/src/store.rs: ShardTree/Store.antt (Checkpoint, TreeState) and
--   ShardTree/Store/Interface.antt (the trait ShardStore as a record of operations).
-- shardtree/src/store/memory.rs: ShardTree/Store/Memory.antt.
-- shardtree/src/store/caching.rs: ShardTree/Store/Caching.antt (load, flush) and
--   ShardTree/Store/Caching/Operations.antt.
-- shardtree/src/lib.rs, the methods of ShardTree:
--   ShardTree/Sharded.antt (addresses, errors, marked leaves), ShardTree/Sharded/FromShards.antt
--   (root_from_shards), ShardTree/Sharded/Root.antt (root_internal, root, root_caching),
--   ShardTree/Sharded/Excess.antt (prune_excess_checkpoints), ShardTree/Sharded/Checkpoints.antt
--   (checkpoint, truncation, remove_mark), ShardTree/Sharded/Insert.antt (insert, append,
--   insert_frontier, insert_tree), ShardTree/Sharded/Query.antt (roots and witnesses at
--   checkpoints, frontier). Where a name was taken, a method has a longer one: insert is
--   insert_root, checkpoint is add_tip_checkpoint, marked_positions is marked_positions_of, and
--   frontier is tree_frontier.
--
-- A function of the source keeps its name; a method is a function of its receiver. Numbers are
-- native, and where u8 or u64 wraps around in a release build, `u8`, `u64`, `shl` and `shr` of
-- Prelude/Words.antt say so. A panic is `none`, an error is `err` of a Result or, where the
-- source has Option, `none`. Mutation is the return of the new state. Loops over the bits of an
-- index have fuel: 65 rounds for Address::current_incomplete, as an index of 64 bits has at most
-- 64 trailing ones, and as many rounds for the search of the next right child in
-- from_frontier_parts; ShardTree::batch_insert has as many rounds as there are values, since each
-- takes one; the other loops run for a number of levels known at the start.
--
-- A shard tree keeps all its state in a store: the shards, the cap above them and the checkpoints. A
-- method is an effect on the store (ShardTree/Store/Effect.antt): it returns a value or an error with
-- the store as it then is, since an error does not take back what was written before. The methods
-- work on any record of the operations of ShardStore; the store in memory and the caching store fill
-- it. BTreeMap and BTreeSet are lists in the order of a key (OrderedMap.antt).
--
-- The specification of all the trees is the complete binary tree over a sequence of leaves
-- (Hashable/Node.antt): `node f k i` is the value at level `k` and index `i`. A frontier stands for
-- the list of the leaves appended so far (Frontier/Bounded/Leaves.antt), a commitment tree for the
-- first leaves of a sequence (CommitmentTree/Holds.antt). A prunable tree stands for
-- a sequence of leaves of which it knows some nodes (ShardTree/Prunable/Sound.antt), and keeps the
-- marked ones of level 0 (ShardTree/Prunable/Sound/Marked.antt). The caching store has the store
-- behind it as its specification.
--
-- Not modelled: the pretty printers, serialization, generators for tests, the legacy witnesses of
-- ShardTree (shardtree/src/legacy.rs), bridgetree, and incrementalmerkletree-testing. Logging and
-- clones leave no trace in the model.
pub mod Prelude
pub mod Retention
pub mod Level
pub mod Position
pub mod Address
pub mod Hashable
pub mod OrderedMap
pub mod WitnessAddrs
pub mod Frontier
pub mod CommitmentTree
pub mod IncrementalWitness
pub mod ShardTree
pub mod Tests
