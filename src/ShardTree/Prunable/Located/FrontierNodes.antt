-- ===== src/ShardTree/Prunable/Located/FrontierNodes.antt =====
-- `LocatedPrunableTree` of shardtree/src/prunable.rs: trees made from a frontier, and the clearing
-- of flags. The outer `Option` of a result is a panic or a loop that does not end.
use incrementalmerkletree.Prelude.{
  ℕ, zero, suc, Option, some, none, List, [], ◌∷◌, if◌then◌else◌, ltb, ◌==◌, true, false, fmap,
  ◌>>=◌, ◌>>?◌, Result, ok, err,
}
use incrementalmerkletree.Retention.{Retention, is_marked}
use incrementalmerkletree.Level.{Level}
use incrementalmerkletree.Position.{Position}
use incrementalmerkletree.Address.{
  Address, children, parent as parent_addr, is_left_child, position_range, position_range_end,
  in_range, from_position,
}
use incrementalmerkletree.Hashable.{Hashable}
use incrementalmerkletree.Frontier.{NonEmptyFrontier, into_parts}
use incrementalmerkletree.ShardTree.Tree.{parent, leaf, nil}
use incrementalmerkletree.ShardTree.Flags.{RetentionFlags, ephemeral, difference, from_retention}
use incrementalmerkletree.ShardTree.Prunable.{PrunableTree, Eq, unite}
use incrementalmerkletree.ShardTree.Prunable.Located.{LocatedPrunableTree}
use incrementalmerkletree.ShardTree.Prunable.Located.Insert.{
  InsertionError, out_of_range, insert_subtree,
}

module _ {ℓ} {H : Type ℓ} where
  -- The first loop of `from_frontier_parts`: up to level `split_at`, or until a left sibling is
  -- missing. The fuel is the number of levels.
  unfoldable pub grow_subtree :
      ℕ → Level → Address → PrunableTree H → List H → LocatedPrunableTree H × List H
  grow_subtree zero split_at addr subtree ommers =
      (record { root_addr = addr; root = subtree }, ommers)
  grow_subtree (suc fuel) split_at addr subtree ommers = elim (ltb addr.level split_at) [
    | false ↦ (record { root_addr = addr; root = subtree }, ommers)
    | true ↦ elim (is_left_child addr) [
      | true ↦ grow_subtree fuel split_at (parent_addr addr) (parent none subtree nil) ommers
      | false ↦ elim ommers [
        | [] ↦ (record { root_addr = addr; root = subtree }, [])
        | left ∷ rest ↦
            grow_subtree fuel split_at (parent_addr addr)
              (parent none (leaf (left, ephemeral)) subtree) rest
      ]
    ]
  ]

  -- The inner loop for the supertree: up to the next right child. An address of 64 bits that is
  -- not 0 has one within 64 levels; at 0 the source does not return.
  unfoldable pub climb :
      ℕ → Address → Option (PrunableTree H) → Option (Address × Option (PrunableTree H))
  climb zero addr supertree = none
  climb (suc fuel) addr supertree = elim (is_left_child addr) [
    | false ↦ some (addr, supertree)
    | true ↦ climb fuel (parent_addr addr) (fmap (λ t. parent none t nil) supertree)
  ]

  abbrev pub or_nil : Option (PrunableTree H) → PrunableTree H
  or_nil none = nil
  or_nil (some t) = t

  unfoldable pub grow_supertree :
      Address → Option (PrunableTree H) → List H → Option (Address × Option (PrunableTree H))
  unfolding climb
  grow_supertree addr supertree [] = some (addr, supertree)
  grow_supertree addr supertree (left ∷ ommers) = climb 65 addr supertree >>= λ s.
      grow_supertree (parent_addr s.0) (some (parent none (leaf (left, ephemeral)) (or_nil s.1)))
        ommers

  unfoldable pub from_frontier_parts {κ} :
      {C : Type κ}
      → Position
      → H
      → List H
      → Retention C
      → Level
      → Option (LocatedPrunableTree H × Option (LocatedPrunableTree H))
  unfolding grow_subtree grow_supertree from_retention from_position
  from_frontier_parts position leaf_hash ommers leaf_retention split_at =
      let (located_subtree, rest) =
        grow_subtree split_at split_at (from_position position)
          (leaf (leaf_hash, from_retention leaf_retention)) ommers in
      if located_subtree.root_addr.level == split_at
      then fmap (λ s. (located_subtree, fmap (λ t. record { root_addr = s.0; root = t }) s.1))
          (grow_supertree located_subtree.root_addr none rest)
      else some (located_subtree, none)

  unfoldable pub from_frontier {κ} :
      {C : Type κ}
      → NonEmptyFrontier H
      → Retention C
      → Level
      → Option (LocatedPrunableTree H × Option (LocatedPrunableTree H))
  unfolding from_frontier_parts into_parts
  from_frontier frontier leaf_retention split_at =
      let (position, leaf_hash, ommers) = into_parts frontier in
      from_frontier_parts position leaf_hash ommers leaf_retention split_at

module _ {ℓ} {H : Type ℓ} ⦃h : Hashable H⦄ ⦃e : Eq H⦄ where
  unfoldable pub insert_frontier_nodes {κ} :
      {C : Type κ}
      → LocatedPrunableTree H
      → NonEmptyFrontier H
      → Retention C
      → Option (Result InsertionError (LocatedPrunableTree H × Option (LocatedPrunableTree H)))
  unfolding from_frontier insert_subtree
  insert_frontier_nodes t frontier leaf_retention =
      let subtree_range = position_range t.root_addr in
      if in_range subtree_range frontier.position
      then (from_frontier frontier leaf_retention t.root_addr.level >>= λ made.
          insert_subtree t made.0 (is_marked leaf_retention) >>? λ done. some (ok (done.0, made.1)))
      else some (err (out_of_range frontier.position subtree_range))

-- A `BTreeMap` from positions to flags, as the list of its entries in order.
abbrev pub FlagMap : Type 0
FlagMap = List (Position × RetentionFlags)

-- The entries before the partition point and those from it on.
unfoldable pub before : Position → FlagMap → FlagMap
before end [] = []
before end ((p, flags) ∷ rest) =
    let more = before end rest in if ltb p end then (p, flags) ∷ more else []

unfoldable pub from_point : Position → FlagMap → FlagMap
from_point end [] = []
from_point end ((p, flags) ∷ rest) =
    let more = from_point end rest in if ltb p end then more else (p, flags) ∷ rest

module _ {ℓ} {H : Type ℓ} ⦃h : Hashable H⦄ where
  -- A leaf with several entries to clear is a panic.
  unfoldable pub clear_from : Address → PrunableTree H → FlagMap → Option (PrunableTree H)
  unfolding unite difference before from_point
  clear_from root_addr t [] = some t
  clear_from root_addr (parent ann l r) (c ∷ to_clear) = elim (children root_addr) [
    | none ↦ none
    | some (l_addr, r_addr) ↦
        clear_from l_addr l (before (position_range_end l_addr) (c ∷ to_clear)) >>= λ l'.
        clear_from r_addr r (from_point (position_range_end l_addr) (c ∷ to_clear)) >>= λ r'.
        some (unite l_addr.level ann l' r')
  ]
  clear_from root_addr (leaf (v, flags)) ((p, clear) ∷ []) = some (leaf (v, difference flags clear))
  clear_from root_addr (leaf (v, flags)) (c ∷ d ∷ to_clear) = none
  clear_from root_addr nil (c ∷ to_clear) = some nil

  unfoldable pub clear_flags : LocatedPrunableTree H → FlagMap → Option (LocatedPrunableTree H)
  unfolding clear_from
  clear_flags t to_clear =
      fmap (λ root. record { root_addr = t.root_addr; root = root })
        (clear_from t.root_addr t.root to_clear)
