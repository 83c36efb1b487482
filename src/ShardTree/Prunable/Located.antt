-- ===== src/ShardTree/Prunable/Located.antt =====
-- `LocatedPrunableTree` of shardtree/src/prunable.rs: queries. The outer `Option` of a result is a
-- panic.
pub mod Insert
pub mod Batch
pub mod FrontierNodes
use incrementalmerkletree.Prelude.{
  ℕ, zero, suc, ◌+◌, ◌-◌, Option, some, none, List, [], ◌∷◌, ◌++◌, if◌then◌else◌, ltb, leb, ◌==◌,
  Bool, true, false, ◌&&◌, ◌||◌, fmap, ◌>>=◌, ◌>>?◌, Result, ok, err, map_ok, map_err, and_then,
  or_else, is_some, is_none,
}
use incrementalmerkletree.Level.{Level}
use incrementalmerkletree.Position.{Position, is_right_child}
use incrementalmerkletree.Position
use incrementalmerkletree.Address.{
  Address, children, position_range_start, position_range_end, position_range, max_position,
  in_range,
}
use incrementalmerkletree.Hashable.{Hashable, empty_root}
use incrementalmerkletree.Frontier.{NonEmptyFrontier}
use incrementalmerkletree.Frontier
use incrementalmerkletree.ShardTree.Tree.{Tree, parent, leaf, nil, is_nil}
use incrementalmerkletree.ShardTree.Flags.{RetentionFlags, is_marked}
use incrementalmerkletree.ShardTree.Located.{LocatedTree}
use incrementalmerkletree.ShardTree.Prunable.{
  PrunableTree, root_hash, unite, accumulate_result_with, is_marked_leaf, leaf_value,
}

abbrev pub LocatedPrunableTree {ℓ} : Type ℓ → Type ℓ
LocatedPrunableTree H = LocatedTree (Option H) (H × RetentionFlags)

pub data QueryError : Type 0 where
  not_contained : Address → QueryError
  checkpoint_pruned : QueryError
  tree_incomplete : List Address → QueryError

pub data FrontierError : Type 0 where
  position_mismatch : ℕ → FrontierError
  max_depth_exceeded : ℕ → FrontierError
  tree_incomplete : Address → FrontierError
  corrupted_data : Address → FrontierError

unfoldable pub from_frontier_error : Frontier.FrontierError → FrontierError
from_frontier_error (Frontier.position_mismatch n) = position_mismatch n
from_frontier_error (Frontier.max_depth_exceeded d) = max_depth_exceeded d

module _ {ℓ} {H : Type ℓ} where
  unfoldable pub max_position_from : Address → PrunableTree H → Option (Option Position)
  max_position_from addr nil = some none
  max_position_from addr (leaf v) = fmap some (Position.sub (position_range_end addr) 1)
  max_position_from addr (parent ann l r) =
      let below = children addr >>= λ a. max_position_from a.1 r >>= λ right. elim right [
        | some p ↦ some (some p)
        | none ↦ max_position_from a.0 l
      ] in
      if is_some ann then fmap some (max_position addr) else below

  unfoldable pub tree_max_position : LocatedPrunableTree H → Option (Option Position)
  unfolding max_position_from
  tree_max_position t = max_position_from t.root_addr t.root

  -- The positions that the traversal inserts into the set, from left to right.
  unfoldable pub marked_from : Address → PrunableTree H → Option (List Position)
  marked_from root_addr (parent ann l r) = children root_addr >>= λ a.
      marked_from a.0 l >>= λ left. marked_from a.1 r >>= λ right. some (left ++ right)
  marked_from root_addr (leaf (v, flags)) =
      some (if is_marked flags && (root_addr.level == 0) then root_addr.index ∷ [] else [])
  marked_from root_addr nil = some []

  unfoldable pub marked_positions : LocatedPrunableTree H → Option (List Position)
  unfolding marked_from
  marked_positions t = marked_from t.root_addr t.root

module _ {ℓ} {H : Type ℓ} ⦃h : Hashable H⦄ where
  unfoldable pub located_root_hash :
      LocatedPrunableTree H → Position → Option (Result (List Address) H)
  located_root_hash t truncate_at = root_hash t.root t.root_addr truncate_at

  unfoldable pub right_filled_root : LocatedPrunableTree H → Option (Result (List Address) H)
  unfolding located_root_hash tree_max_position
  right_filled_root t = tree_max_position t >>= λ m.
      located_root_hash t
        (elim m [ none ↦ position_range_start t.root_addr | some pos ↦ Position.add pos 1 ])

  -- The level-0 sibling of the position: the desired leaf itself has to be marked.
  unfoldable pub witness_pair :
      PrunableTree H
      → PrunableTree H
      → Address
      → Address
      → Position
      → Position
      → Result (List Address) (List H)
  witness_pair l r l_addr r_addr position truncate_at =
      if is_right_child position
      then (if is_marked_leaf r
          then elim (leaf_value l) [ some v ↦ ok (v ∷ []) | none ↦ err (l_addr ∷ []) ]
          else err (l_addr ∷ []))
      else if is_marked_leaf l
      then (if leb truncate_at (Position.add position 1)
          then ok (h.empty_leaf ∷ [])
          else elim (leaf_value r) [ some v ↦ ok (v ∷ []) | none ↦ err (r_addr ∷ []) ])
      else err (r_addr ∷ [])

  abbrev pub push_sibling : List H → H → List H
  push_sibling witness sibling_root = witness ++ sibling_root ∷ []

  unfoldable pub witness_from :
      PrunableTree H → Address → Position → Position → Option (Result (List Address) (List H))
  unfolding witness_pair accumulate_result_with
  witness_from (leaf v) root_addr position truncate_at = some (err (root_addr ∷ []))
  witness_from nil root_addr position truncate_at = some (err (root_addr ∷ []))
  witness_from (parent ann l r) root_addr position truncate_at = children root_addr >>= λ c.
      elim (ltb 1 root_addr.level) [
        | false ↦ some (witness_pair l r c.0 c.1 position truncate_at)
        | true ↦ elim (ltb position (position_range_start c.1)) [
          | true ↦ witness_from l c.0 position truncate_at >>= λ w.
              root_hash r c.1 truncate_at >>= λ s. some (accumulate_result_with w s push_sibling)
          | false ↦ root_hash l c.0 (position_range_start c.1) >>= λ s.
              witness_from r c.1 position truncate_at >>= λ w.
              some (accumulate_result_with s w (λ s w. push_sibling w s))
        ]
      ]

  unfoldable pub witness :
      LocatedPrunableTree H → Position → Position → Option (Result QueryError (List H))
  unfolding witness_from
  witness t position truncate_at =
      if in_range (position_range t.root_addr) position
      then fmap (map_err QueryError.tree_incomplete)
          (witness_from t.root t.root_addr position truncate_at)
      else some (err (not_contained t.root_addr))

  -- The inner `Option` is the source's.
  unfoldable pub truncate_from :
      Position → Address → PrunableTree H → Option (Option (PrunableTree H))
  unfolding unite
  truncate_from position root_addr (parent ann l r) = children root_addr >>= λ c.
      elim (ltb position (position_range_start c.1)) [
        | true ↦ fmap (fmap (λ l'. unite c.0.level ann l' nil)) (truncate_from position c.0 l)
        | false ↦ fmap (fmap (λ r'. unite c.1.level ann l r')) (truncate_from position c.1 r)
      ]
  truncate_from position root_addr (leaf v) =
      fmap (λ m. if leb m position then some (leaf v) else none) (max_position root_addr)
  truncate_from position root_addr nil = some none

  unfoldable pub truncate_to_position :
      LocatedPrunableTree H → Position → Option (Option (LocatedPrunableTree H))
  unfolding truncate_from
  truncate_to_position t position =
      if in_range (position_range t.root_addr) position
      then fmap (fmap (λ root. record { root_addr = t.root_addr; root = root }))
          (truncate_from position t.root_addr t.root)
      else some none

  abbrev pub or_corrupted :
      Address
      → Option (Address × Address)
      → (Address → Address → Option (Result FrontierError (Position × H × List H)))
      → Option (Result FrontierError (Position × H × List H))
  or_corrupted address none below = some (err (corrupted_data address))
  or_corrupted address (some (l_addr, r_addr)) below = below l_addr r_addr

  -- The root of a left subtree is one more ommer.
  abbrev pub add_ommer :
      Position × H × List H
      → Address
      → Result (List Address) H
      → Result FrontierError (Position × H × List H)
  add_ommer parts l_addr (ok left_hash) = ok (parts.0, parts.1, parts.2 ++ left_hash ∷ [])
  add_ommer parts l_addr (err missing) = err (FrontierError.tree_incomplete l_addr)

  -- The position, the leaf and the ommers on the rightmost path.
  unfoldable pub ommers_from :
      Address → PrunableTree H → Option (Result FrontierError (Position × H × List H))
  unfolding is_nil
  ommers_from address nil = some (err (FrontierError.tree_incomplete address))
  ommers_from address (leaf (v, flags)) =
      if address.level == 0
      then some (ok (address.index, v, []))
      else some (err (FrontierError.tree_incomplete address))
  ommers_from address (parent ann l r) = or_corrupted address (children address) (λ l_addr r_addr.
      elim (is_nil r) [
        | true ↦ ommers_from l_addr l
        | false ↦ ommers_from r_addr r >>? λ parts.
            fmap (add_ommer parts l_addr) (root_hash l l_addr (position_range_start r_addr))
      ])

  unfoldable pub frontier_ommers :
      LocatedPrunableTree H → Option (Result FrontierError (Option (Position × H × List H)))
  unfolding ommers_from
  frontier_ommers t =
      if is_nil t.root then some (ok none) else fmap (map_ok some) (ommers_from t.root_addr t.root)

  unfoldable pub frontier :
      LocatedPrunableTree H → Option (Result FrontierError (Option (NonEmptyFrontier H)))
  unfolding frontier_ommers Frontier.from_parts from_frontier_error
  frontier t = frontier_ommers t >>? λ found. elim found [
    | none ↦ some (ok none)
    | some parts ↦
        some
          (map_err from_frontier_error (map_ok some (Frontier.from_parts parts.0 parts.1 parts.2)))
  ]
