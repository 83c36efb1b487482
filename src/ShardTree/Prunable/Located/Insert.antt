-- ===== src/ShardTree/Prunable/Located/Insert.antt =====
-- `LocatedPrunableTree` of shardtree/src/prunable.rs: insertion.
use incrementalmerkletree.Prelude.{
  ℕ, zero, suc, ◌-◌, Option, some, none, List, [], ◌∷◌, ◌++◌, if◌then◌else◌, ltb, leb, Bool, true,
  false, fmap, ◌>>=◌, ◌>>?◌, Result, ok, err, map_ok, map_err, bit_and, bit_or,
}
use incrementalmerkletree.Level.{Level}
use incrementalmerkletree.Position.{Position}
use incrementalmerkletree.Address.{
  Address, Range, children, parent as parent_addr, sibling, is_right_child, address_eq, contains,
}
use incrementalmerkletree.Hashable.{Hashable}
use incrementalmerkletree.ShardTree.Tree.{
  parent, leaf, nil, is_nil, is_leaf, reannotate_root, try_map,
}
use incrementalmerkletree.ShardTree.Flags.{RetentionFlags, reference, difference}
use incrementalmerkletree.ShardTree.Prunable.{
  PrunableTree, Eq, MergeError, unite, merge_checked, has_computable_root, node_value,
}
use incrementalmerkletree.ShardTree.Prunable.Located.{LocatedPrunableTree, tree_max_position}

pub record IncompleteAt : Type 0 where
  pub address : Address
  pub required_for_witness : Bool

pub data InsertionError : Type 0 where
  not_contained : Address → InsertionError
  out_of_range : Position → Range → InsertionError
  conflict : Address → InsertionError
  checkpoint_out_of_order : InsertionError
  tree_full : InsertionError
  input_malformed : Address → InsertionError
  marked_retention_invalid : InsertionError

unfoldable pub from_merge_error : MergeError → InsertionError
from_merge_error (MergeError.conflict addr) = InsertionError.conflict addr
from_merge_error (MergeError.tree_malformed addr) = input_malformed addr

-- `Option<Position>` in its derived order, `None` first.
abbrev pub option_le : Option Position → Option Position → Bool
option_le none b = true
option_le (some p) none = false
option_le (some p) (some q) = leb p q

module _ {ℓ} {H : Type ℓ} ⦃h : Hashable H⦄ ⦃e : Eq H⦄ where
  -- The loop of `replacement`: up to the level of the root, one empty sibling at a time. The
  -- fuel is the number of levels.
  unfoldable pub extend :
      ℕ
      → Level
      → Bool
      → LocatedPrunableTree H
      → List IncompleteAt
      → PrunableTree H × List IncompleteAt
  extend zero root_level required node incomplete = (node.root, incomplete)
  extend (suc fuel) root_level required node incomplete =
      elim (ltb node.root_addr.level root_level) [
        | false ↦ (node.root, incomplete)
        | true ↦
            extend fuel root_level required
              (record {
                root_addr = parent_addr node.root_addr;
                root =
                    if is_right_child node.root_addr
                    then parent none nil node.root
                    else parent none node.root nil;
              })
              (incomplete
                ++ record { address = sibling node.root_addr; required_for_witness = required }
                  ∷ [])
      ]

  unfoldable pub replacement :
      Address → Bool → Option H → LocatedPrunableTree H → PrunableTree H × List IncompleteAt
  unfolding extend reannotate_root
  replacement root_addr required ann node =
      let extended =
        extend (root_addr.level - node.root_addr.level) root_addr.level required node [] in
      (reannotate_root extended.0 ann, extended.1)

  -- A leaf over a leaf of the same value: `REFERENCE` stays if both have it.
  unfoldable pub replace_leaf :
      Address → H → RetentionFlags → H × RetentionFlags → Result InsertionError (H × RetentionFlags)
  unfolding difference
  replace_leaf root_addr value retention (v0, ret0) =
      if e.beq v0 value
      then ok (
        value,
        bit_or (difference (bit_or retention ret0) reference)
            (bit_and (bit_and reference retention) ret0),
      )
      else err (InsertionError.conflict root_addr)

  -- A subtree whose root is missing agrees with any value.
  abbrev pub value_agrees : Option H → H → Bool
  value_agrees none value = true
  value_agrees (some v) value = e.beq v value

  -- The insertion of a subtree of the same address where a leaf stands.
  unfoldable pub insert_over_leaf :
      Address
      → H
      → RetentionFlags
      → PrunableTree H
      → Result InsertionError (PrunableTree H × List IncompleteAt)
  unfolding replace_leaf has_computable_root is_leaf node_value try_map reannotate_root
  insert_over_leaf root_addr value retention t =
      if has_computable_root t
      then (if is_leaf t
          then map_ok (λ t. (t, [])) (try_map (replace_leaf root_addr value retention) t)
          else ok (t, []))
      else if value_agrees (node_value t) value
      then ok (reannotate_root t (some value), [])
      else err (InsertionError.conflict root_addr)

  -- The insertion of a subtree where a leaf stands.
  unfoldable pub insert_at_leaf :
      Address
      → H
      → RetentionFlags
      → LocatedPrunableTree H
      → Bool
      → Result InsertionError (PrunableTree H × List IncompleteAt)
  unfolding replacement insert_over_leaf
  insert_at_leaf root_addr value retention subtree contains_marked =
      if address_eq root_addr subtree.root_addr
      then insert_over_leaf root_addr value retention subtree.root
      else ok (replacement root_addr contains_marked (some value) subtree)

  -- `go` of `insert_subtree`, where the subtree is not `Nil`.
  unfoldable pub insert_into :
      Address
      → PrunableTree H
      → LocatedPrunableTree H
      → Bool
      → Option (Result InsertionError (PrunableTree H × List IncompleteAt))
  unfolding insert_at_leaf merge_checked from_merge_error
  insert_into root_addr nil subtree contains_marked =
      some (ok (replacement root_addr contains_marked none subtree))
  insert_into root_addr (leaf (value, retention)) subtree contains_marked =
      some (insert_at_leaf root_addr value retention subtree contains_marked)
  insert_into root_addr (parent ann l r) subtree contains_marked =
      elim (address_eq root_addr subtree.root_addr) [
        | true ↦
            fmap (λ m. map_ok (λ t. (t, [])) (map_err from_merge_error m))
              (merge_checked root_addr (parent ann l r) subtree.root)
        | false ↦ children root_addr >>= λ c. elim (contains c.0 subtree.root_addr) [
          | true ↦ insert_into c.0 l subtree contains_marked >>? λ done.
              some (ok (unite (root_addr.level - 1) ann done.0 r, done.1))
          | false ↦ insert_into c.1 r subtree contains_marked >>? λ done.
              some (ok (unite (root_addr.level - 1) ann l done.0, done.1))
        ]
      ]

  -- A `Nil` subtree changes nothing, at any depth.
  unfoldable pub insert_go :
      Address
      → PrunableTree H
      → LocatedPrunableTree H
      → Bool
      → Option (Result InsertionError (PrunableTree H × List IncompleteAt))
  unfolding insert_into is_nil
  insert_go root_addr into subtree contains_marked =
      if is_nil subtree.root
      then some (ok (into, []))
      else insert_into root_addr into subtree contains_marked

  -- The assertion on the greatest position is a panic.
  unfoldable pub insert_subtree :
      LocatedPrunableTree H
      → LocatedPrunableTree H
      → Bool
      → Option (Result InsertionError (LocatedPrunableTree H × List IncompleteAt))
  unfolding insert_go tree_max_position
  insert_subtree t subtree contains_marked = tree_max_position t >>= λ max_position.
      if contains t.root_addr subtree.root_addr
      then (insert_go t.root_addr t.root subtree contains_marked >>? λ done.
          let new_tree : LocatedPrunableTree H = record {
            root_addr = t.root_addr;
            root = done.0;
          } in
          tree_max_position new_tree >>= λ new_max.
          if option_le max_position new_max then some (ok (new_tree, done.1)) else none)
      else some (err (not_contained subtree.root_addr))
