-- ===== src/Tests.antt =====
-- Tests of the definitions, and the theorems at concrete inputs.
pub mod Sample
pub mod Indices
pub mod Frontiers
pub mod Shards
pub mod Stores
pub mod Trees
