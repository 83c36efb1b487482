-- ===== src/ShardTree.antt =====
-- The crate shardtree: pruned trees, trees at an address, and prunable Merkle trees.
pub mod Tree
pub mod Located
pub mod Flags
pub mod Prunable
pub mod Store
pub mod Sharded
