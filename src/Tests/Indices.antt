-- ===== src/Tests/Indices.antt =====
-- The theorems on positions and addresses, at concrete inputs.
use incrementalmerkletree.Prelude.{ℕ, ◌+◌, ◌%◌, ◌^◌, ◌≤◌, ◌<◌, ◌≡◌, ◌↔◌, arith, some, true}
use incrementalmerkletree.Position.{root_level, past_ommer_count, is_complete_subtree}
use incrementalmerkletree.Position.Digits.{
  root_level-least, past_ommer_count_eq, is_complete_subtree_iff, ones,
}
use incrementalmerkletree.Address.{
  Address, position_range_start, position_range_end, contains, common_ancestor, current_incomplete,
  is_left_child, is_right_child, children, parent, sibling,
}
use incrementalmerkletree.Address.Shape.{Fits, InTree}
use incrementalmerkletree.Address.Containment.{contains-range}
use incrementalmerkletree.Address.Ancestor.{common_ancestor-least}
use incrementalmerkletree.Address.Incomplete.{current_incomplete_total}
use incrementalmerkletree.Address.Family.{children_lem}
use incrementalmerkletree.WitnessAddrs.{witness_addrs, collect}
use incrementalmerkletree.WitnessAddrs.Items.{witness_addrs_eq, path_items, iter_at}

abbrev at : ℕ → ℕ → Address
at level index = record { level = level; index = index }

at_1_3-Fits : Fits (at 1 3)
at_1_3-Fits = record { levels = omega arith; leaves = omega arith }

at_3_0-Fits : Fits (at 3 0)
at_3_0-Fits = record { levels = omega arith; leaves = omega arith }

at_0_2-InTree : InTree 3 (at 0 2)
at_0_2-InTree = record { below = omega arith; within = omega arith }

at_1_3-InTree : InTree 3 (at 1 3)
at_1_3-InTree = record { below = omega arith; within = omega arith }

root_level-least_example : (root_level 5 ≤ 3) ↔ (5 < 2 ^ 3)
root_level-least_example = root_level-least 5 3 (omega arith)

past_ommer_count_eq_example : past_ommer_count 5 ≡ ones 64 5
past_ommer_count_eq_example = past_ommer_count_eq 5 (omega arith)

is_complete_subtree_iff_example : (is_complete_subtree 3 2 ≡ true) ↔ ((3 + 1) % 2 ^ 2 ≡ 0)
is_complete_subtree_iff_example = is_complete_subtree_iff 3 2 (omega arith)

contains-range_example : (contains (at 3 0) (at 1 3) ≡ true) ↔ (
    (position_range_start (at 3 0) ≤ position_range_start (at 1 3))
    × (position_range_end (at 1 3) ≤ position_range_end (at 3 0)))
contains-range_example = contains-range (at 3 0) (at 1 3) at_3_0-Fits at_1_3-Fits

common_ancestor-least_example :
    InTree 3 (common_ancestor (at 0 2) (at 1 3))
    × (contains (common_ancestor (at 0 2) (at 1 3)) (at 0 2) ≡ true)
    × (contains (common_ancestor (at 0 2) (at 1 3)) (at 1 3) ≡ true)
    × ((e : Address)
        → e.level < 64
        → contains e (at 0 2) ≡ true
        → contains e (at 1 3) ≡ true
        → contains e (common_ancestor (at 0 2) (at 1 3)) ≡ true)
common_ancestor-least_example =
    common_ancestor-least 3 (at 0 2) (at 1 3) (omega arith) at_0_2-InTree at_1_3-InTree

current_incomplete_total_example :
    (r : Address) × (current_incomplete (at 1 3) ≡ some r)
    × (is_left_child r ≡ true)
    × (contains r (at 1 3) ≡ true)
    × (position_range_end r ≡ position_range_end (at 1 3))
current_incomplete_total_example = current_incomplete_total 3 (at 1 3) (omega arith) at_1_3-InTree

children_lem_example :
    (l : Address) × (r : Address) × (children (at 1 3) ≡ some (l, r))
    × ((parent l ≡ at 1 3) × (parent r ≡ at 1 3))
    × ((sibling l ≡ r) × (sibling r ≡ l))
    × ((is_left_child l ≡ true) × (is_right_child r ≡ true))
    × ((position_range_start l ≡ position_range_start (at 1 3))
        × (position_range_end l ≡ position_range_start r)
        × (position_range_end r ≡ position_range_end (at 1 3)))
children_lem_example = children_lem (at 1 3) at_1_3-Fits (omega arith)

witness_addrs_eq_example :
    (witness_addrs 5 3 ≡ path_items 3 0 5 0) × (collect 10 (iter_at 0 5 0 3) ≡ path_items 3 0 5 0)
witness_addrs_eq_example = witness_addrs_eq 5 3 10 (omega arith) (omega arith)
