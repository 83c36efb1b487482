-- ===== src/ShardTree/Located.antt =====
-- `LocatedTree` of shardtree/src/tree.rs: a tree with the address of its root. `none` is a panic
-- unless said otherwise.
use incrementalmerkletree.Prelude.{
  Option, some, none, List, [], ◌∷◌, ◌++◌, if◌then◌else◌, leb, ◌==◌, true, false, ◌>>=◌, Result, ok,
  err, and_then, map_ok,
}
use incrementalmerkletree.Level.{Level}
use incrementalmerkletree.Position.{Position}
use incrementalmerkletree.Address.{
  Address, children, position_range, in_range, contains, address_eq,
}
use incrementalmerkletree.ShardTree.Tree.{Tree, parent, leaf, nil}
use incrementalmerkletree.ShardTree.Tree

pub record LocatedTree {ℓ κ} (A : Type ℓ) (V : Type κ) : Type (ℓ ⊔ κ) where
  pub root_addr : Address
  pub root : Tree A V

module _ {ℓ κ} {A : Type ℓ} {V : Type κ} where
  -- The address at which a parent stands on level 0, if there is one.
  unfoldable pub check : Address → Tree A V → Result Address (Unit {0})
  check addr (parent ann l r) = elim (children addr) [
    | none ↦ err addr
    | some (l_addr, r_addr) ↦ and_then (check l_addr l) (λ _. check r_addr r)
  ]
  check addr (leaf v) = ok tt
  check addr nil = ok tt

  unfoldable pub from_parts : Address → Tree A V → Result Address (LocatedTree A V)
  unfolding check
  from_parts root_addr root =
      map_ok (λ _. record { root_addr = root_addr; root = root }) (check root_addr root)

  unfoldable pub reannotate_root : LocatedTree A V → A → LocatedTree A V
  unfolding Tree.reannotate_root
  reannotate_root t value = record {
    root_addr = t.root_addr;
    root = Tree.reannotate_root t.root value;
  }

  unfoldable pub incomplete_nodes : LocatedTree A V → Option (List Address)
  incomplete_nodes t = Tree.incomplete_nodes t.root t.root_addr

  -- The inner `Option` is the source's: the leaf at the position, if the tree has it.
  unfoldable pub value_from : Position → Address → Tree A V → Option (Option V)
  value_from pos addr (parent ann l r) = elim (children addr) [
    | none ↦ none
    | some (l_addr, r_addr) ↦ elim (in_range (position_range l_addr) pos) [
      | true ↦ value_from pos l_addr l
      | false ↦ value_from pos r_addr r
    ]
  ]
  value_from pos addr (leaf v) = if addr.level == 0 then some (some v) else some none
  value_from pos addr nil = some none

  unfoldable pub value_at_position : LocatedTree A V → Position → Option (Option V)
  unfolding value_from
  value_at_position t position =
      if in_range (position_range t.root_addr) position
      then value_from position t.root_addr t.root
      else some none

  unfoldable pub empty : Address → LocatedTree A V
  empty root_addr = record { root_addr = root_addr; root = nil }

  unfoldable pub with_root_value : Address → V → LocatedTree A V
  with_root_value root_addr value = record { root_addr = root_addr; root = leaf value }

  unfoldable pub subtree_from : Address → Tree A V → Address → Option (Option (LocatedTree A V))
  subtree_from root_addr (parent ann l r) addr = elim (address_eq root_addr addr) [
    | true ↦ some (some (record { root_addr = root_addr; root = parent ann l r }))
    | false ↦ elim (children root_addr) [
      | none ↦ none
      | some (l_addr, r_addr) ↦ elim (contains l_addr addr) [
        | true ↦ subtree_from l_addr l addr
        | false ↦ subtree_from r_addr r addr
      ]
    ]
  ]
  subtree_from root_addr (leaf v) addr =
      if address_eq root_addr addr
      then some (some (record { root_addr = root_addr; root = leaf v }))
      else some none
  subtree_from root_addr nil addr =
      if address_eq root_addr addr
      then some (some (record { root_addr = root_addr; root = nil }))
      else some none

  unfoldable pub subtree : LocatedTree A V → Address → Option (Option (LocatedTree A V))
  unfolding subtree_from
  subtree t addr =
      if contains t.root_addr addr then subtree_from t.root_addr t.root addr else some none

  unfoldable pub decompose_from : Level → Address → Tree A V → Option (List (LocatedTree A V))
  decompose_from level root_addr (parent ann l r) = elim (root_addr.level == level) [
    | true ↦ some (record { root_addr = root_addr; root = parent ann l r } ∷ [])
    | false ↦ elim (children root_addr) [
      | none ↦ none
      | some (l_addr, r_addr) ↦ decompose_from level l_addr l >>= λ left.
          decompose_from level r_addr r >>= λ right. some (left ++ right)
    ]
  ]
  decompose_from level root_addr (leaf v) =
      if root_addr.level == level
      then some (record { root_addr = root_addr; root = leaf v } ∷ [])
      else some []
  decompose_from level root_addr nil =
      if root_addr.level == level
      then some (record { root_addr = root_addr; root = nil } ∷ [])
      else some []

  unfoldable pub decompose_to_level : LocatedTree A V → Level → Option (List (LocatedTree A V))
  unfolding decompose_from
  decompose_to_level t level =
      if leb t.root_addr.level level then some (t ∷ []) else decompose_from level t.root_addr t.root

module _ {ℓ κ μ} {A : Type ℓ} {V : Type κ} {B : Type μ} where
  unfoldable pub map : (V → B) → LocatedTree A V → LocatedTree A B
  unfolding Tree.map
  map f t = record { root_addr = t.root_addr; root = Tree.map f t.root }

  unfoldable pub try_map {ν} :
      {E : Type ν} → (V → Result E B) → LocatedTree A V → Result E (LocatedTree A B)
  unfolding Tree.try_map
  try_map f t = map_ok (λ r. record { root_addr = t.root_addr; root = r }) (Tree.try_map f t.root)
