-- ===== src/Tests/Frontiers.antt =====
-- The theorems on frontiers and paths, at concrete inputs.
use incrementalmerkletree.Prelude.{ℕ, ◌≡◌, ◌↔◌, refl, arith, some, true, List, [], ◌∷◌, ok, length}
use incrementalmerkletree.Hashable.{Hashable, MerklePath}
use incrementalmerkletree.Hashable
use incrementalmerkletree.Hashable.Node.{node}
use incrementalmerkletree.Hashable.Path.{siblings, root-siblings}
use incrementalmerkletree.Frontier.{from_parts, witness}
use incrementalmerkletree.Frontier.Ommers.{frontier_at, from_parts-ones}
use incrementalmerkletree.Position.Digits.{ones}
use incrementalmerkletree.Frontier.{position_mismatch}
use incrementalmerkletree.Prelude.{length, ◌⊎◌, ◌≢◌, err}
use incrementalmerkletree.Frontier.Witness.{witness-frontier_at}
use incrementalmerkletree.Frontier.Bounded.{append, root, tree_size}
use incrementalmerkletree.Frontier.Bounded.Leaves.{
  frontier_of, tree_root, append-refines, root-refines, tree_size-refines,
}
use incrementalmerkletree.Prelude.{◌>>=◌, ◌⊎◌, ◌<◌, ◌^◌, none}
use incrementalmerkletree.CommitmentTree.{CommitmentTree}
use incrementalmerkletree.CommitmentTree
use incrementalmerkletree.CommitmentTree.Holds.{Holds, append-Holds, is_complete-Holds}
use incrementalmerkletree.CommitmentTree.Root.{grown, first, root-grown}
use incrementalmerkletree.Tests.Sample.{sample_hash, sample_leaves}

abbrev three : List ℕ
three = 10 ∷ 11 ∷ 12 ∷ []

append-refines_example :
    append 2 (frontier_of three) 13 ≡ some (frontier_of (10 ∷ 11 ∷ 12 ∷ 13 ∷ []), true)
append-refines_example = append-refines 2 three 13 (omega arith) (omega arith)

root-refines_example : root 5 (frontier_of three) ≡ some (tree_root 5 three)
root-refines_example = root-refines 5 three (omega arith) (omega arith) (omega arith)

tree_size-refines_example : tree_size (frontier_of three) ≡ 3
tree_size-refines_example = tree_size-refines three (omega arith)

abbrev two_ommers : List ℕ
two_ommers = 14 ∷ 7 ∷ []

from_parts-ones_example :
    ((length two_ommers ≡ ones 64 5)
      × (from_parts 5 15 two_ommers ≡ ok (record { position = 5; leaf = 15; ommers = two_ommers })))
    ⊎ ((length two_ommers ≢ ones 64 5)
        × (from_parts 5 15 two_ommers ≡ err (position_mismatch (ones 64 5))))
from_parts-ones_example = from_parts-ones 5 15 two_ommers (omega arith)

root-siblings_example :
    Hashable.root (record { path_elems = siblings sample_leaves 3 0 5; position = 5 }) 15
    ≡ node sample_leaves 3 0
root-siblings_example = root-siblings sample_leaves 5 3 (omega arith) (omega arith)

witness-frontier_at_example :
    (path : List ℕ) × (witness
        (frontier_at sample_leaves 5)
        3
        (λ a. some (node sample_leaves a.level a.index))
      ≡ some (ok path))
    × (length path ≡ 3)
    × (Hashable.root (record { path_elems = path; position = 5 }) 15 ≡ node sample_leaves 3 0)
witness-frontier_at_example =
    witness-frontier_at sample_leaves (λ a. some (node sample_leaves a.level a.index)) (λ a. refl) 5
      3 (omega arith) (omega arith)

abbrev pair_tree : CommitmentTree ℕ
pair_tree = record { left = some 10; right = some 11; parents = [] }

pair_tree-Holds : Holds sample_leaves 2 pair_tree
pair_tree-Holds = ((refl, omega arith, refl, refl), (refl, tt))

append-Holds_example :
    ((2 < 2 ^ 3)
      × ((t' : CommitmentTree ℕ) × (CommitmentTree.append 3 pair_tree 12 ≡ some t')
          × Holds sample_leaves 3 t'))
    ⊎ ((2 ≡ 2 ^ 3) × (CommitmentTree.append 3 pair_tree 12 ≡ none))
append-Holds_example =
    append-Holds sample_leaves 3 2 pair_tree (omega arith) (omega arith) (omega arith)
      pair_tree-Holds

is_complete-Holds_example : (CommitmentTree.is_complete pair_tree 1 ≡ true) ↔ (2 ≡ 2 ^ 1)
is_complete-Holds_example =
    is_complete-Holds sample_leaves 1 2 pair_tree pair_tree-Holds (omega arith) (omega arith)

root-grown_example :
    (grown sample_leaves 3 5 >>= CommitmentTree.root 3) ≡ some (node (first sample_leaves 5) 3 0)
root-grown_example = root-grown sample_leaves 3 5 (omega arith) (omega arith) (omega arith)
