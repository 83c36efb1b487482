-- ===== src/ShardTree/Store.antt =====
-- `Checkpoint` and `TreeState` of shardtree/src/store.rs, the saved states of a shard tree.
pub mod Memory
pub mod Effect
pub mod Interface
pub mod Caching
use incrementalmerkletree.Prelude.{ℕ, Option, some, none, List, [], ◌∷◌, Bool, true, false}
use incrementalmerkletree.Position.{Position}
use incrementalmerkletree.OrderedMap.{OrderedSet, insert, ℕ-Ord}

pub data TreeState : Type 0 where
  empty : TreeState
  at_position : Position → TreeState

pub record Checkpoint : Type 0 where
  pub tree_state : TreeState
  pub marks_removed : OrderedSet Position

unfoldable pub tree_empty : Checkpoint
tree_empty = record { tree_state = empty; marks_removed = [] }

unfoldable pub checkpoint_at : Position → Checkpoint
checkpoint_at p = record { tree_state = at_position p; marks_removed = [] }

unfoldable pub from_parts : TreeState → OrderedSet Position → Checkpoint
from_parts tree_state marks_removed = record {
  tree_state = tree_state;
  marks_removed = marks_removed;
}

abbrev state_is_empty : TreeState → Bool
state_is_empty empty = true
state_is_empty (at_position p) = false

unfoldable pub is_tree_empty : Checkpoint → Bool
is_tree_empty c = state_is_empty c.tree_state

abbrev state_position : TreeState → Option Position
state_position empty = none
state_position (at_position p) = some p

unfoldable pub position : Checkpoint → Option Position
position c = state_position c.tree_state

unfoldable pub mark_removed : Checkpoint → Position → Checkpoint
unfolding insert
mark_removed c p = record c { marks_removed = insert p tt c.marks_removed }

-- `marks_removed.clear()`.
unfoldable pub clear_marks_removed : Checkpoint → Checkpoint
clear_marks_removed c = record c { marks_removed = [] }
