-- ===== src/IncrementalWitness.antt =====
-- `IncrementalWitness` of incrementalmerkletree/src/witness.rs: a witness that is kept up to date
-- while leaves are appended. `depth` is the source's constant `DEPTH`.
use incrementalmerkletree.Prelude.{
  ℕ, zero, suc, ◌+◌, ◌-◌, ◌^◌, Option, some, none, List, [], ◌∷◌, if◌then◌else◌, leb, ltb, ◌==◌,
  Bool, true, false, ◌&&◌, fmap, ◌>>=◌, u8, u64, shl, length, is_none, is_empty, ◌++◌, take, foldl,
}
use incrementalmerkletree.Retention.{Source, past, future}
use incrementalmerkletree.Position.{Position}
use incrementalmerkletree.Position
use incrementalmerkletree.Address.{Address}
use incrementalmerkletree.WitnessAddrs.{witness_addrs}
use incrementalmerkletree.Hashable.{Hashable, MerklePath, empty_root}
use incrementalmerkletree.Hashable
use incrementalmerkletree.CommitmentTree.{
  CommitmentTree, PathFiller, padded, fill, root_at_depth, size, is_complete, tree_is_empty, empty,
  empty_filler,
}
use incrementalmerkletree.CommitmentTree

pub record IncrementalWitness {ℓ} (H : Type ℓ) : Type ℓ where
  pub tree : CommitmentTree H
  pub filled : List H
  pub cursor_depth : ℕ
  pub cursor : Option (CommitmentTree H)

-- The levels of the addresses whose nodes are still to come.
abbrev pub future_levels : List (Address × Source) → List ℕ
future_levels [] = []
future_levels ((addr, past i) ∷ items) = future_levels items
future_levels ((addr, future) ∷ items) = addr.level ∷ future_levels items

module _ {ℓ} {H : Type ℓ} where
  -- `none` is the source's `None`.
  unfoldable pub from_tree : CommitmentTree H → Option (IncrementalWitness H)
  from_tree tree =
      if tree_is_empty tree
      then none
      else some (record { tree = tree; filled = []; cursor_depth = 0; cursor = none })

  unfoldable pub invalid_empty_witness : IncrementalWitness H
  invalid_empty_witness = record { tree = empty; filled = []; cursor_depth = 0; cursor = none }

  -- The loop of `next_depth` over the parents: `inl` is the early return.
  unfoldable pub skip_parents : ℕ → ℕ → List (Option H) → ℕ
  skip_parents d skip [] = u8 (d + skip)
  skip_parents d skip (some p ∷ ps) = skip_parents (u8 (d + 1)) skip ps
  skip_parents d zero (none ∷ ps) = d
  skip_parents d (suc skip) (none ∷ ps) = skip_parents (u8 (d + 1)) skip ps

  -- The two leaves: each one that is missing uses up a filled node, or is where the next goes.
  unfoldable pub skip_leaves : Option H → Option H → ℕ → List (Option H) → ℕ
  unfolding skip_parents
  skip_leaves (some l) (some r) skip ps = skip_parents 1 skip ps
  skip_leaves (some l) none zero ps = 0
  skip_leaves (some l) none (suc skip) ps = skip_parents 1 skip ps
  skip_leaves none r zero ps = 0
  skip_leaves none (some r) (suc skip) ps = skip_parents 1 skip ps
  skip_leaves none none (suc zero) ps = 0
  skip_leaves none none (suc (suc skip)) ps = skip_parents 1 skip ps

  -- More than 255 filled nodes are a panic.
  unfoldable pub next_depth : IncrementalWitness H → Option ℕ
  unfolding skip_leaves
  next_depth w =
      if ltb (length w.filled) 256
      then some (skip_leaves w.tree.left w.tree.right (length w.filled) w.tree.parents)
      else none

  -- The outer `Option` is a panic, the inner one the source's.
  unfoldable pub from_parts :
      CommitmentTree H → List H → Option (CommitmentTree H) → Option (Option (IncrementalWitness H))
  unfolding next_depth
  from_parts tree filled cursor =
      if tree_is_empty tree && is_empty filled && is_none cursor
      then some none
      else (let witness : IncrementalWitness H = record {
        tree = tree;
        filled = filled;
        cursor_depth = 0;
        cursor = cursor;
      } in
          fmap (λ d. some (record witness { cursor_depth = d })) (next_depth witness))

  -- `size() - 1` wraps for a tree of no leaves.
  unfoldable pub witnessed_position : IncrementalWitness H → Option Position
  witnessed_position w = fmap (λ n. u64 (n + (2 ^ 64 - 1))) (size w.tree)

  unfoldable pub tip_position : ℕ → IncrementalWitness H → Option Position
  unfolding witnessed_position Position.add
  tip_position depth w = witnessed_position w >>= λ p.
      let leaves_to_cursor_start =
        foldl (λ acc l. u64 (acc + shl 1 l)) 0
          (take (length w.filled) (future_levels (witness_addrs p depth))) in
      elim w.cursor [
        | none ↦ some (Position.add (Position.add p leaves_to_cursor_start) 0)
        | some c ↦ fmap (λ n. Position.add (Position.add p leaves_to_cursor_start) n) (size c)
      ]

module _ {ℓ} {H : Type ℓ} ⦃h : Hashable H⦄ where
  unfoldable pub filler : IncrementalWitness H → Option (PathFiller H)
  filler w = elim w.cursor [
    | none ↦ some (record { queue = w.filled })
    | some c ↦
        fmap (λ r. record { queue = w.filled ++ r ∷ [] })
          (root_at_depth c w.cursor_depth empty_filler)
  ]

  -- The next leaf goes to the cursor; a cursor that it completes becomes a filled node.
  unfoldable pub append_cursor :
      ℕ → IncrementalWitness H → CommitmentTree H → H → Option (IncrementalWitness H × Bool)
  append_cursor depth w cursor node = CommitmentTree.append depth cursor node >>= λ cursor'.
      if is_complete cursor' w.cursor_depth
      then fmap (λ r. (record w { filled = w.filled ++ r ∷ []; cursor = none }, true))
          (root_at_depth cursor' w.cursor_depth empty_filler)
      else some (record w { cursor = some cursor' }, true)

  -- Without a cursor the next leaf is a filled node itself or starts a new cursor.
  unfoldable pub append_fresh : ℕ → IncrementalWitness H → H → Option (IncrementalWitness H × Bool)
  unfolding next_depth
  append_fresh depth w node = next_depth w >>= λ d.
      if leb depth d
      then some (record w { cursor_depth = d }, false)
      else if d == 0
      then some (record w { cursor_depth = d; filled = w.filled ++ node ∷ [] }, true)
      else fmap (λ c. (record w { cursor_depth = d; cursor = some c }, true))
          (CommitmentTree.append depth empty node)

  -- The witness after the call, and whether it returned `Ok`; `none` is a panic.
  unfoldable pub append : ℕ → IncrementalWitness H → H → Option (IncrementalWitness H × Bool)
  unfolding append_cursor append_fresh
  append depth w node = elim w.cursor [
    | some c ↦ append_cursor depth w c node
    | none ↦ append_fresh depth w node
  ]

  unfoldable pub root : ℕ → IncrementalWitness H → Option H
  unfolding filler
  root depth w = filler w >>= λ f. root_at_depth w.tree depth f

  -- The loop of `path_inner` over the parents from level `i + 1`.
  unfoldable pub auth_parents : ℕ → PathFiller H → List (Option H) → List H
  auth_parents i f [] = []
  auth_parents i f (some node ∷ ps) = node ∷ auth_parents (u8 (i + 1)) f ps
  auth_parents i f (none ∷ ps) =
      let (v, f') = fill f (u8 (i + 1)) in v ∷ auth_parents (u8 (i + 1)) f' ps

  abbrev pub auth_leaf : H → Option H → PathFiller H → H × PathFiller H
  auth_leaf left (some r) f = (left, f)
  auth_leaf left none f = fill f 0

  -- The outer `Option` is a panic: a failed assertion, or a `depth` of 0, where `depth - 1`
  -- underflows.
  unfoldable pub path_inner : ℕ → IncrementalWitness H → ℕ → Option (Option (MerklePath H))
  unfolding filler auth_parents witnessed_position Hashable.from_parts
  path_inner const_depth w depth = filler w >>= λ f. elim w.tree.left [
    | none ↦ some none
    | some node ↦
        if depth == 0
        then none
        else (let (first, f') = auth_leaf node w.tree.right f in
            let auth_path = first ∷ auth_parents 0 f' (padded (depth - 1) w.tree.parents) in
            if length auth_path == depth
            then fmap (Hashable.from_parts const_depth auth_path) (witnessed_position w)
            else none)
  ]

  unfoldable pub path : ℕ → IncrementalWitness H → Option (Option (MerklePath H))
  unfolding path_inner
  path depth w = path_inner depth w depth
