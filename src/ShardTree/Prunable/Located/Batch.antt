-- ===== src/ShardTree/Prunable/Located/Batch.antt =====
-- Insertion of many leaves at once: shardtree/src/batch.rs, and `LocatedPrunableTree::append` of
-- shardtree/src/prunable.rs. An iterator is the list of what it yields, a stack the list of its
-- elements from the top. The outer `Option` of a result is a panic.
use incrementalmerkletree.Prelude.{
  ℕ, zero, suc, ◌-◌, Option, some, none, List, [], ◌∷◌, ◌++◌, if◌then◌else◌, ltb, ◌==◌, Bool, true,
  false, not, ◌||◌, fmap, ◌>>=◌, ◌>>?◌, Result, ok, err, reverse, is_empty,
}
use incrementalmerkletree.Retention.{Retention}
use incrementalmerkletree.Level.{Level}
use incrementalmerkletree.Level
use incrementalmerkletree.Position.{Position}
use incrementalmerkletree.Position
use incrementalmerkletree.Address.{
  Address, Range, parent as parent_addr, sibling, is_left_child, is_right_child, address_eq,
  common_ancestor, from_position, position_range, position_range_start, in_range,
}
use incrementalmerkletree.Hashable.{Hashable}
use incrementalmerkletree.OrderedMap.{Ord, OrderedMap, insert}
use incrementalmerkletree.ShardTree.Tree.{parent, leaf}
use incrementalmerkletree.ShardTree.Flags.{from_retention, is_marked}
use incrementalmerkletree.ShardTree.Located.{empty}
use incrementalmerkletree.ShardTree.Prunable.{Eq}
use incrementalmerkletree.ShardTree.Prunable
use incrementalmerkletree.ShardTree.Prunable.Located.{LocatedPrunableTree, tree_max_position}
use incrementalmerkletree.ShardTree.Prunable.Located.Insert.{
  IncompleteAt, InsertionError, insert_subtree,
}

pub record BatchInsertionResult {ℓ κ} (H : Type ℓ) (C : Type κ) : Type (ℓ ⊔ κ) where
  pub subtree : LocatedPrunableTree H
  pub contains_marked : Bool
  pub incomplete : List IncompleteAt
  pub max_insert_position : Position
  pub checkpoints : OrderedMap C Position
  pub remainder : List (H × Retention C)

-- A subtree on the stack, with its flag.
abbrev pub Fragment {ℓ} : Type ℓ → Type ℓ
Fragment H = LocatedPrunableTree H × Bool

module _ {ℓ} {H : Type ℓ} ⦃h : Hashable H⦄ where
  -- The assertion that the parents are the same is a panic.
  unfoldable pub unite :
      LocatedPrunableTree H → LocatedPrunableTree H → Level → Option (LocatedPrunableTree H)
  unfolding Prunable.unite
  unite lroot rroot prune_below =
      if address_eq (parent_addr lroot.root_addr) (parent_addr rroot.root_addr)
      then some (record {
        root_addr = parent_addr lroot.root_addr;
        root =
            if ltb lroot.root_addr.level prune_below
            then Prunable.unite lroot.root_addr.level none lroot.root rroot.root
            else parent none lroot.root rroot.root;
      })
      else none

  -- The united tree, and the addresses found incomplete so far with the new one.
  unfoldable pub combine_with_empty :
      LocatedPrunableTree H
      → Bool
      → List IncompleteAt
      → Bool
      → Level
      → Option (LocatedPrunableTree H × List IncompleteAt)
  unfolding unite
  combine_with_empty root expect_left_child incomplete contains_marked prune_below =
      let is_left = is_left_child root.root_addr in
      let side = empty (sibling root.root_addr) in
      let all =
        incomplete
        ++ record { address = sibling root.root_addr; required_for_witness = contains_marked }
          ∷ [] in
      if (if expect_left_child then is_left else not is_left)
      then fmap (λ t. (t, all))
          (if is_left then unite root side prune_below else unite side root prune_below)
      else none

  -- A loop of `combine_with_empty` while the level of the root passes a test. The fuel is the
  -- number of levels to go.
  unfoldable pub raise :
      ℕ
      → (Level → Bool)
      → Bool
      → Bool
      → Level
      → LocatedPrunableTree H
      → List IncompleteAt
      → Option (LocatedPrunableTree H × List IncompleteAt)
  unfolding combine_with_empty
  raise zero below expect_left marked prune_below cur incomplete = some (cur, incomplete)
  raise (suc fuel) below expect_left marked prune_below cur incomplete =
      elim (below cur.root_addr.level) [
        | false ↦ some (cur, incomplete)
        | true ↦ combine_with_empty cur expect_left incomplete marked prune_below >>= λ next.
            raise fuel below expect_left marked prune_below next.0 next.1
      ]

  -- The loop of `from_iter` that unites the completed subtree with its siblings on the stack.
  unfoldable pub unite_siblings :
      Level
      → List (Fragment H)
      → LocatedPrunableTree H
      → Option (LocatedPrunableTree H × List (Fragment H))
  unfolding unite
  unite_siblings prune_below [] subtree = some (subtree, [])
  unite_siblings prune_below ((potential_sibling, marked) ∷ fragments) subtree =
      elim (address_eq (parent_addr potential_sibling.root_addr) (parent_addr subtree.root_addr)) [
        | true ↦ unite potential_sibling subtree prune_below >>= λ united.
            unite_siblings prune_below fragments united
        | false ↦ some (subtree, (potential_sibling, marked) ∷ fragments)
      ]

  -- The first loop of `build_minimal_tree`: the rightmost subtree, its flag, the addresses found
  -- incomplete, and the rest of the stack.
  unfoldable pub merge_right :
      Level
      → List (Fragment H)
      → LocatedPrunableTree H
      → Bool
      → List IncompleteAt
      → Option (LocatedPrunableTree H × Bool × List IncompleteAt × List (Fragment H))
  unfolding raise unite combine_with_empty
  merge_right prune_below [] cur contains_marked incomplete =
      some (cur, contains_marked, incomplete, [])
  merge_right prune_below ((top, top_marked) ∷ xs) cur contains_marked incomplete =
      raise (top.root_addr.level - cur.root_addr.level) (λ l. ltb l top.root_addr.level) true
        top_marked prune_below cur incomplete
      >>= λ (raised, found). elim (raised.root_addr.level == top.root_addr.level) [
        | true ↦ elim (is_right_child raised.root_addr) [
          | true ↦ unite top raised prune_below >>= λ united.
              merge_right prune_below xs united (contains_marked || top_marked) found
          | false ↦ combine_with_empty raised true found top_marked prune_below >>= λ (up, all).
              some (up, contains_marked || top_marked, all, (top, top_marked) ∷ xs)
        ]
        | false ↦ some (raised, contains_marked, found, (top, top_marked) ∷ xs)
      ]

  -- The fold of `build_minimal_tree` over the stack from its bottom, after the first subtree.
  unfoldable pub merge_left :
      Level
      → LocatedPrunableTree H
      → List (Fragment H)
      → Bool
      → List IncompleteAt
      → Option (LocatedPrunableTree H × Bool × List IncompleteAt)
  unfolding raise unite
  merge_left prune_below prev_tree [] contains_marked incomplete =
      some (prev_tree, contains_marked, incomplete)
  merge_left prune_below prev_tree ((next_tree, next_marked) ∷ xs) contains_marked incomplete =
      raise (next_tree.root_addr.level - prev_tree.root_addr.level)
        (λ l. ltb l next_tree.root_addr.level) false next_marked prune_below prev_tree incomplete
      >>= λ (raised, found). unite raised next_tree prune_below >>= λ united.
          merge_left prune_below united xs
            (if ltb prev_tree.root_addr.level next_tree.root_addr.level
              then contains_marked || next_marked
              else contains_marked)
            found

  unfoldable pub merge_stack :
      Level
      → List (Fragment H)
      → Bool
      → List IncompleteAt
      → Option (Option (LocatedPrunableTree H × Bool × List IncompleteAt))
  unfolding merge_left
  merge_stack prune_below [] contains_marked incomplete = some none
  merge_stack prune_below ((first, first_marked) ∷ xs) contains_marked incomplete =
      fmap some (merge_left prune_below first xs contains_marked incomplete)

  -- The inner `Option` is the source's.
  unfoldable pub build_minimal_tree :
      List (Fragment H)
      → Address
      → Level
      → Option (Option (LocatedPrunableTree H × Bool × List IncompleteAt))
  unfolding merge_right raise merge_stack Level.add
  build_minimal_tree [] root_addr prune_below = some none
  build_minimal_tree ((rightmost, marked) ∷ xs) root_addr prune_below =
      merge_right prune_below xs rightmost marked [] >>= λ (cur, contains_marked, found, left).
      raise (root_addr.level - cur.root_addr.level) (λ l. ltb (Level.add l 1) root_addr.level) true
        contains_marked prune_below cur found
      >>= λ (right, incomplete).
          merge_stack prune_below (reverse ((right, contains_marked) ∷ left)) contains_marked
            incomplete

-- `checkpoints.insert(id, position)` at a checkpoint.
unfoldable pub note_checkpoint {κ} :
    {C : Type κ} ⦃o : Ord C⦄
    → Retention C
    → Position
    → OrderedMap C Position
    → OrderedMap C Position
unfolding insert
note_checkpoint (Retention.checkpoint id marking) position checkpoints =
    insert id position checkpoints
note_checkpoint _ position checkpoints = checkpoints

module _ {ℓ κ} {H : Type ℓ} {C : Type κ} ⦃h : Hashable H⦄ ⦃o : Ord C⦄ where
  -- The loop of `from_iter` over the values: the position after the last one, the fragments, the
  -- checkpoints, and the values left.
  unfoldable pub take_values :
      Position
      → Level
      → List (H × Retention C)
      → Position
      → List (Fragment H)
      → OrderedMap C Position
      → Option (Position × List (Fragment H) × OrderedMap C Position × List (H × Retention C))
  unfolding note_checkpoint unite_siblings from_retention is_marked Position.add
  take_values end prune_below [] position fragments checkpoints =
      some (position, fragments, checkpoints, [])
  take_values end prune_below ((value, retention) ∷ values) position fragments checkpoints =
      elim (ltb position end) [
        | false ↦ some (position, fragments, checkpoints, (value, retention) ∷ values)
        | true ↦
            let rflags = from_retention retention in
            let single : LocatedPrunableTree H = record {
              root_addr = from_position position;
              root = leaf (value, rflags);
            } in
            (if Position.is_right_child position
              then unite_siblings prune_below fragments single
              else some (single, fragments))
            >>= λ (subtree, left).
                take_values end prune_below values (Position.add position 1)
                  ((subtree, is_marked rflags) ∷ left)
                  (note_checkpoint retention position checkpoints)
      ]

  -- The inner `Option` is the source's: no value was taken.
  unfoldable pub from_iter :
      Range → Level → List (H × Retention C) → Option (Option (BatchInsertionResult H C))
  unfolding take_values build_minimal_tree
  from_iter range prune_below values =
      take_values range.end prune_below values range.start [] []
      >>= λ (position, fragments, checkpoints, remainder).
          if ltb range.start position
          then (let last_position = position - 1 in
              fmap
                (λ built.
                  fmap
                    (λ (t, contains_marked, incomplete). record {
                      subtree = t;
                      contains_marked = contains_marked;
                      incomplete = incomplete;
                      max_insert_position = last_position;
                      checkpoints = checkpoints;
                      remainder = remainder;
                    })
                    built)
                (build_minimal_tree fragments
                  (common_ancestor (from_position range.start) (from_position last_position))
                  prune_below))
          else some none

-- `Option::transpose` over a result that may panic.
abbrev pub transpose {ℓ κ} :
    {E : Type ℓ} {A : Type κ} → (A → Option (Result E A)) → Option A → Option (Result E (Option A))
transpose f none = some (ok none)
transpose f (some a) = f a >>? λ b. some (ok (some b))

abbrev pub append_position {ℓ} : {H : Type ℓ} → LocatedPrunableTree H → Option Position → Position
append_position t none = position_range_start t.root_addr
append_position t (some p) = Position.add p 1

abbrev pub checkpoint_id {κ} : {C : Type κ} → Retention C → Option C
checkpoint_id (Retention.checkpoint id marking) = some id
checkpoint_id _ = none

module _ {ℓ κ} {H : Type ℓ} {C : Type κ} ⦃h : Hashable H⦄ ⦃e : Eq H⦄ ⦃o : Ord C⦄ where
  -- The result of `from_iter`, inserted into the tree.
  unfoldable pub insert_batch :
      LocatedPrunableTree H
      → BatchInsertionResult H C
      → Option (Result InsertionError (BatchInsertionResult H C))
  unfolding insert_subtree
  insert_batch t res = insert_subtree t res.subtree res.contains_marked >>? λ (subtree, found).
      some (ok (record res { subtree = subtree; incomplete = res.incomplete ++ found }))

  unfoldable pub batch_insert :
      LocatedPrunableTree H
      → Position
      → List (H × Retention C)
      → Option (Result InsertionError (Option (BatchInsertionResult H C)))
  unfolding from_iter insert_batch
  batch_insert t start values =
      let subtree_range = position_range t.root_addr in
      if in_range subtree_range start
      then (from_iter (record { start = start; end = subtree_range.end }) t.root_addr.level values
          >>= transpose (insert_batch t))
      else some (err (InsertionError.out_of_range start subtree_range))

  unfoldable pub batch_append :
      LocatedPrunableTree H
      → List (H × Retention C)
      → Option (Result InsertionError (Option (BatchInsertionResult H C)))
  unfolding tree_max_position batch_insert Position.add
  batch_append t values =
      tree_max_position t >>= λ max_position. batch_insert t (append_position t max_position) values

  -- The outer `none`: the iterator was not empty.
  unfoldable pub appended :
      Option C
      → Option (BatchInsertionResult H C)
      → Option (Result InsertionError (LocatedPrunableTree H × Position × Option C))
  appended id none = none
  appended id (some r) =
      if is_empty r.remainder
      then some (ok (r.subtree, r.max_insert_position, id))
      else some (err InsertionError.tree_full)

  unfoldable pub append :
      LocatedPrunableTree H
      → H
      → Retention C
      → Option (Result InsertionError (LocatedPrunableTree H × Position × Option C))
  unfolding batch_append appended
  append t value retention =
      batch_append t ((value, retention) ∷ []) >>? appended (checkpoint_id retention)
