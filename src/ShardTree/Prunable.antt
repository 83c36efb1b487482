-- ===== src/ShardTree/Prunable.antt =====
-- `PrunableTree` of shardtree/src/prunable.rs: a tree of hashes whose leaves carry flags and
-- whose parents may cache their root. `none` is a panic unless said otherwise.
pub mod Located
pub mod Sound
pub mod Pruned
use incrementalmerkletree.Prelude.{
  ℕ, zero, suc, ◌+◌, ◌-◌, Option, some, none, List, [], ◌∷◌, ◌++◌, if◌then◌else◌, ltb, leb, ◌==◌,
  Bool, true, false, ◌&&◌, ◌||◌, fmap, ◌>>=◌, ◌>>?◌, Result, ok, err, map_ok, to_option, or_else,
  is_some, is_none, bit_and, bit_or, ◌≡◌, ◌↔◌,
}
use incrementalmerkletree.Level.{Level}
use incrementalmerkletree.Level
use incrementalmerkletree.Position.{Position}
use incrementalmerkletree.Address.{Address, children, position_range_start, position_range_end}
use incrementalmerkletree.Hashable.{Hashable, empty_root}
use incrementalmerkletree.ShardTree.Tree.{Tree, parent, leaf, nil, is_nil, reannotate_root}
use incrementalmerkletree.ShardTree.Flags.{RetentionFlags, ephemeral, marked, reference, is_marked}

-- `H: PartialEq`, the equality test of the hash type; its law says that it decides equality.
pub record Eq {ℓ} (H : Type ℓ) : Type ℓ where
  pub beq : H → H → Bool
  pub beq_iff : (a b : H) → (beq a b ≡ true) ↔ (a ≡ b)

abbrev pub PrunableTree {ℓ} : Type ℓ → Type ℓ
PrunableTree H = Tree (Option H) (H × RetentionFlags)

pub data MergeError : Type 0 where
  conflict : Address → MergeError
  tree_malformed : Address → MergeError

-- Errors of both sides, the left ones first.
unfoldable pub accumulate_result_with {ℓ κ μ} :
    {A : Type ℓ} {B : Type κ} {C : Type μ}
    → Result (List Address) A
    → Result (List Address) B
    → (A → B → C)
    → Result (List Address) C
accumulate_result_with (ok a) (ok b) f = ok (f a b)
accumulate_result_with (err xs) (err ys) f = err (xs ++ ys)
accumulate_result_with (ok a) (err xs) f = err xs
accumulate_result_with (err xs) (ok b) f = err xs

module _ {ℓ} {H : Type ℓ} where
  unfoldable pub leaf_value : PrunableTree H → Option H
  leaf_value (leaf (v, flags)) = some v
  leaf_value (parent ann l r) = none
  leaf_value nil = none

  -- The annotation of a parent, cached or not, or the value of a leaf.
  unfoldable pub node_value : PrunableTree H → Option H
  node_value (parent ann l r) = ann
  node_value (leaf (v, flags)) = some v
  node_value nil = none

  unfoldable pub is_marked_leaf : PrunableTree H → Bool
  is_marked_leaf (leaf (v, flags)) = is_marked flags
  is_marked_leaf (parent ann l r) = false
  is_marked_leaf nil = false

  unfoldable pub has_computable_root : PrunableTree H → Bool
  has_computable_root (parent ann l r) =
      is_some ann || (has_computable_root l && has_computable_root r)
  has_computable_root (leaf v) = true
  has_computable_root nil = false

  unfoldable pub is_full : PrunableTree H → Bool
  is_full nil = false
  is_full (leaf v) = true
  is_full (parent ann l r) = is_some ann || is_full r

  unfoldable pub contains_marked : PrunableTree H → Bool
  contains_marked (parent ann l r) = contains_marked l || contains_marked r
  contains_marked (leaf (v, flags)) = is_marked flags
  contains_marked nil = false

  -- The set as the list of its elements from left to right, which is their order.
  unfoldable pub marked_positions : PrunableTree H → Address → Option (List Position)
  marked_positions (parent ann l r) root_addr =
      if is_nil l && is_nil r
      then none
      else (children root_addr >>= λ a. marked_positions l a.0 >>= λ left.
          marked_positions r a.1 >>= λ right. some (left ++ right))
  marked_positions (leaf (v, retention)) root_addr =
      some (if (root_addr.level == 0) && is_marked retention then root_addr.index ∷ [] else [])
  marked_positions nil root_addr = some []

module _ {ℓ} {H : Type ℓ} ⦃h : Hashable H⦄ where
  -- The root of a parent: empty, cached, or computed from the children.
  abbrev pub parent_root :
      Address
      → Position
      → Option H
      → Option (Result (List Address) H)
      → Option (Result (List Address) H)
  parent_root root_addr truncate_at ann computed =
      if leb truncate_at (position_range_start root_addr)
      then some (ok (empty_root root_addr.level))
      else elim ann [
        | none ↦ computed
        | some rc ↦
            if leb (position_range_end root_addr) truncate_at then some (ok rc) else computed
      ]

  unfoldable pub root_hash : PrunableTree H → Address → Position → Option (Result (List Address) H)
  unfolding accumulate_result_with
  root_hash (parent ann l r) root_addr truncate_at = parent_root root_addr truncate_at ann (
      children root_addr >>= λ a. root_hash l a.0 truncate_at >>= λ left.
      root_hash r a.1 truncate_at >>= λ right.
      some (accumulate_result_with left right (h.combine a.0.level)))
  root_hash (leaf (v, flags)) root_addr truncate_at =
      if leb truncate_at (position_range_start root_addr)
      then some (ok (empty_root root_addr.level))
      else if leb (position_range_end root_addr) truncate_at
      then some (ok v)
      else some (err (root_addr ∷ []))
  root_hash nil root_addr truncate_at =
      if leb truncate_at (position_range_start root_addr)
      then some (ok (empty_root root_addr.level))
      else some (err (root_addr ∷ []))

  unfoldable pub unite : Level → Option H → PrunableTree H → PrunableTree H → PrunableTree H
  unite level none nil nil = nil
  unite level ann (leaf (lv, lf)) (leaf (rv, rf)) =
      if (lf == ephemeral) && (bit_and rf (bit_or marked reference) == ephemeral)
      then leaf (h.combine level lv rv, rf)
      else parent ann (leaf (lv, lf)) (leaf (rv, rf))
  unite level ann l r = parent ann l r

  -- `level - 1` is a panic on level 0.
  unfoldable pub prune : PrunableTree H → Level → Option (PrunableTree H)
  unfolding unite Level.sub
  prune (parent ann l r) level = Level.sub level 1 >>= λ below.
      prune l below >>= λ l'. prune r below >>= λ r'. some (unite level ann l' r')
  prune (leaf v) level = some (leaf v)
  prune nil level = some nil

module _ {ℓ} {H : Type ℓ} ⦃h : Hashable H⦄ ⦃e : Eq H⦄ where
  -- A computed root, if there is one, is the value.
  abbrev pub agrees : Result (List Address) H → H → Bool
  agrees (ok r) v = e.beq r v
  agrees (err missing) v = true

  -- Two roots are equal, or one of them is missing.
  abbrev pub both_agree : Option H → Option H → Bool
  both_agree (some l) (some r) = e.beq l r
  both_agree none r = true
  both_agree (some l) none = true

  abbrev pub annotate_by_leaf :
      Address → PrunableTree H → H → Option (Result MergeError (PrunableTree H))
  annotate_by_leaf addr t v = root_hash t addr (position_range_end addr) >>= λ parent_hash.
      if agrees parent_hash v
      then some (ok (reannotate_root t (some v)))
      else some (err (conflict addr))

  abbrev pub or_conflict :
      Address
      → Bool
      → Option (Result MergeError (PrunableTree H))
      → Option (Result MergeError (PrunableTree H))
  or_conflict addr true merged = merged
  or_conflict addr false merged = some (err (conflict addr))

  abbrev pub at_children :
      Address
      → Option (Address × Address)
      → (Address → Address → Option (Result MergeError (PrunableTree H)))
      → Option (Result MergeError (PrunableTree H))
  at_children addr (some (l_addr, r_addr)) f = f l_addr r_addr
  at_children addr none f = some (err (tree_malformed addr))

  unfoldable pub merge_checked :
      Address → PrunableTree H → PrunableTree H → Option (Result MergeError (PrunableTree H))
  unfolding root_hash unite
  merge_checked addr nil other = some (ok other)
  merge_checked addr (leaf v) nil = some (ok (leaf v))
  merge_checked addr (parent ann l r) nil = some (ok (parent ann l r))
  merge_checked addr (leaf (lv, lf)) (leaf (rv, rf)) =
      if e.beq lv rv then some (ok (leaf (lv, bit_or lf rf))) else some (err (conflict addr))
  merge_checked addr (leaf (v, flags)) (parent ann l r) = annotate_by_leaf addr (parent ann l r) v
  merge_checked addr (parent ann l r) (leaf (v, flags)) = annotate_by_leaf addr (parent ann l r) v
  merge_checked addr (parent lann ll lr) (parent rann rl rr) =
      root_hash (parent lann ll lr) addr (position_range_end addr) >>= λ lroot.
      root_hash (parent rann rl rr) addr (position_range_end addr) >>= λ rroot.
      or_conflict addr (both_agree (to_option lroot) (to_option rroot)) (
        at_children addr (children addr) (λ l_addr r_addr. merge_checked l_addr ll rl >>? λ l.
        merge_checked r_addr lr rr >>? λ r.
        some (ok (unite (addr.level - 1) (or_else lann rann) l r))))
