-- ===== src/ShardTree/Tree.antt =====
-- `Node` and `Tree` of shardtree/src/tree.rs. The shared pointers of the children leave no trace:
-- the trees are immutable. `none` is a panic.
use incrementalmerkletree.Prelude.{
  Option, some, none, List, [], ◌∷◌, ◌++◌, if◌then◌else◌, Bool, true, false, ◌&&◌, ◌>>=◌, Result,
  ok, and_then,
}
use incrementalmerkletree.Address.{Address, children}

pub data Tree {ℓ κ} (A : Type ℓ) (V : Type κ) : Type (ℓ ⊔ κ) where
  parent : A → Tree A V → Tree A V → Tree A V
  leaf : V → Tree A V
  nil : Tree A V

module _ {ℓ κ} {A : Type ℓ} {V : Type κ} where
  unfoldable pub is_nil : Tree A V → Bool
  is_nil nil = true
  is_nil (parent ann l r) = false
  is_nil (leaf v) = false

  unfoldable pub leaf_value : Tree A V → Option V
  leaf_value (parent ann l r) = none
  leaf_value (leaf v) = some v
  leaf_value nil = none

  unfoldable pub annotation : Tree A V → Option A
  annotation (parent ann l r) = some ann
  annotation (leaf v) = none
  annotation nil = none

  unfoldable pub reannotate_root : Tree A V → A → Tree A V
  reannotate_root (parent _ l r) ann = parent ann l r
  reannotate_root (leaf v) ann = leaf v
  reannotate_root nil ann = nil

  unfoldable pub is_leaf : Tree A V → Bool
  is_leaf (leaf v) = true
  is_leaf (parent ann l r) = false
  is_leaf nil = false

  -- A parent of two `Nil` nodes, or one at level 0, is a panic.
  unfoldable pub incomplete_nodes : Tree A V → Address → Option (List Address)
  unfolding is_nil
  incomplete_nodes (parent ann l r) root_addr =
      let below = λ (a : Address × Address). incomplete_nodes l a.0 >>= λ left.
      incomplete_nodes r a.1 >>= λ right. some (left ++ right) in
      if is_nil l && is_nil r then none else (children root_addr >>= below)
  incomplete_nodes (leaf v) root_addr = some []
  incomplete_nodes nil root_addr = some (root_addr ∷ [])

module _ {ℓ κ μ} {A : Type ℓ} {V : Type κ} {B : Type μ} where
  unfoldable pub map : (V → B) → Tree A V → Tree A B
  map f (parent ann l r) = parent ann (map f l) (map f r)
  map f (leaf v) = leaf (f v)
  map f nil = nil

  -- The first failure, from the left, is the result.
  unfoldable pub try_map {ν} : {E : Type ν} → (V → Result E B) → Tree A V → Result E (Tree A B)
  try_map f (parent ann l r) =
      and_then (try_map f l) (λ l'. and_then (try_map f r) (λ r'. ok (parent ann l' r')))
  try_map f (leaf v) = and_then (f v) (λ b. ok (leaf b))
  try_map f nil = ok nil
