-- ===== src/CommitmentTree.antt =====
-- `PathFiller` and `CommitmentTree` of incrementalmerkletree/src/frontier.rs (feature
-- "legacy-api"). `depth` is the source's constant `DEPTH`; `none` is a panic unless said otherwise.
pub mod Holds
pub mod Root
use incrementalmerkletree.Prelude.{
  ℕ, zero, suc, ◌+◌, ◌-◌, Option, some, none, List, [], ◌∷◌, if◌then◌else◌, ltb, ◌==◌, Bool, true,
  ◌&&◌, fmap, ◌>>=◌, ok, err, u8, u64, shl, bit_and, length, flatten_options, is_some, is_none,
  is_empty, or_else,
}
use incrementalmerkletree.Level.{Level}
use incrementalmerkletree.Position.{Position, is_right_child}
use incrementalmerkletree.Hashable.{Hashable, empty_root}
use incrementalmerkletree.Frontier.Bounded.{Frontier}
use incrementalmerkletree.Frontier.Bounded

-- The queue of nodes that fill a path, its front first.
pub record PathFiller {ℓ} (H : Type ℓ) : Type ℓ where
  pub queue : List H

pub record CommitmentTree {ℓ} (H : Type ℓ) : Type ℓ where
  pub left : Option H
  pub right : Option H
  pub parents : List (Option H)

-- `iter().chain(repeat(&None)).take(n)`.
abbrev pub padded {ℓ} : {H : Type ℓ} → ℕ → List (Option H) → List (Option H)
padded zero ps = []
padded (suc n) [] = none ∷ padded n []
padded (suc n) (p ∷ ps) = p ∷ padded n ps

module _ {ℓ} {H : Type ℓ} where
  unfoldable pub empty_filler : PathFiller H
  empty_filler = record { queue = [] }

  unfoldable pub empty : CommitmentTree H
  empty = record { left = none; right = none; parents = [] }

  -- `none` is the `Err`.
  unfoldable pub from_parts : ℕ → Option H → Option H → List (Option H) → Option (CommitmentTree H)
  from_parts depth left right parents =
      if ltb (length parents) depth
      then some (record { left = left; right = right; parents = parents })
      else none

  unfoldable pub tree_is_empty : CommitmentTree H → Bool
  tree_is_empty t = is_none t.left && is_none t.right

  unfoldable pub leaf : CommitmentTree H → Option H
  leaf t = or_else t.right t.left

  -- What the iterator yields.
  unfoldable pub ommers_iter : CommitmentTree H → List H
  ommers_iter t =
      if is_some t.right then flatten_options (t.left ∷ t.parents) else flatten_options t.parents

  -- The fold of `size` over the parents from index `i`, in `usize` arithmetic.
  unfoldable pub size_from : ℕ → ℕ → List (Option H) → ℕ
  size_from i acc [] = acc
  size_from i acc (p ∷ ps) =
      size_from (suc i) (u64 (acc + (if is_some p then shl 1 (i + 1) else 0))) ps

  -- A right leaf with no left one is `unreachable!`.
  unfoldable pub size_leaves : Option H → Option H → Option ℕ
  size_leaves none none = some 0
  size_leaves (some l) none = some 1
  size_leaves (some l) (some r) = some 2
  size_leaves none (some r) = none

  unfoldable pub size : CommitmentTree H → Option ℕ
  unfolding size_from size_leaves
  size t = fmap (λ n. size_from 0 n t.parents) (size_leaves t.left t.right)

  abbrev pub all_some : List (Option H) → Bool
  all_some [] = true
  all_some (p ∷ ps) = is_some p && all_some ps

  unfoldable pub is_complete : CommitmentTree H → ℕ → Bool
  is_complete t depth =
      if depth == 0
      then is_some t.left && is_none t.right && is_empty t.parents
      else is_some t.left && is_some t.right && all_some (padded (depth - 1) t.parents)

  -- The parents that `from_frontier` lists for levels `i`, `i + 1`, …: the next ommer at each set
  -- digit of the position.
  unfoldable pub spread_ommers : ℕ → ℕ → Position → List H → List (Option H)
  spread_ommers zero i p os = []
  spread_ommers (suc n) i p os =
      if bit_and p (shl 1 i) == 0 then none ∷ spread_ommers n (suc i) p os else elim os [
        | [] ↦ none ∷ spread_ommers n (suc i) p []
        | o ∷ rest ↦ some o ∷ spread_ommers n (suc i) p rest
      ]

  -- An odd position with no ommer is a panic.
  unfoldable pub from_frontier : ℕ → Frontier H → Option (CommitmentTree H)
  unfolding spread_ommers empty
  from_frontier depth f = elim f.frontier [
    | none ↦ some empty
    | some fr ↦
        if is_right_child fr.position
        then elim fr.ommers [
          | [] ↦ none
          | o ∷ os ↦ some (record {
            left = some o;
            right = some fr.leaf;
            parents = spread_ommers (depth - 1) 1 fr.position os;
          })
        ]
        else some (record {
          left = some fr.leaf;
          right = none;
          parents = spread_ommers (depth - 1) 1 fr.position fr.ommers;
        })
  ]

  -- The leaf and the ommers of `to_frontier`.
  unfoldable pub last_and_ommers : CommitmentTree H → Option (H × List H)
  last_and_ommers t = elim t.left [
    | none ↦ none
    | some a ↦ elim t.right [
      | none ↦ some (a, flatten_options t.parents)
      | some b ↦ some (b, a ∷ flatten_options t.parents)
    ]
  ]

  unfoldable pub to_frontier : ℕ → CommitmentTree H → Option (Frontier H)
  unfolding size last_and_ommers Bounded.from_parts Bounded.empty
  to_frontier depth t = size t >>= λ n.
      if n == 0
      then some Bounded.empty
      else (last_and_ommers t >>= λ parts. elim (Bounded.from_parts depth (n - 1) parts.0 parts.1) [
        | ok f ↦ some f
        | err e ↦ none
      ])

module _ {ℓ} {H : Type ℓ} ⦃h : Hashable H⦄ where
  -- The next node of the queue, or an empty root, and the rest of the queue.
  unfoldable pub fill : PathFiller H → Level → H × PathFiller H
  fill filler level = elim filler.queue [
    | [] ↦ (empty_root level, filler)
    | v ∷ vs ↦ (v, record { queue = vs })
  ]

  -- The loop of `append` over the parents from index `i`, with `rounds` left: the carry merges
  -- with each parent that is there, and stops at the first that is not.
  unfoldable pub carry_parents : ℕ → ℕ → H → List (Option H) → List (Option H)
  carry_parents zero i combined ps = ps
  carry_parents (suc rounds) i combined [] = some combined ∷ []
  carry_parents (suc rounds) i combined (none ∷ ps) = some combined ∷ ps
  carry_parents (suc rounds) i combined (some p ∷ ps) =
      none ∷ carry_parents rounds (suc i) (h.combine (u8 (i + 1)) p combined) ps

  abbrev pub push_leaf : ℕ → CommitmentTree H → H → CommitmentTree H
  push_leaf depth t node = elim t.left [
    | none ↦ record t { left = some node }
    | some l ↦ elim t.right [
      | none ↦ record t { right = some node }
      | some r ↦ record {
        left = some node;
        right = none;
        parents = carry_parents depth 0 (h.combine 0 l r) t.parents;
      }
    ]
  ]

  -- `none` is the `Err` of a full tree.
  unfoldable pub append : ℕ → CommitmentTree H → H → Option (CommitmentTree H)
  unfolding is_complete carry_parents
  append depth t node = if is_complete t depth then none else some (push_leaf depth t node)

  -- The fold of `root_at_depth` over the parents from level `i + 1`.
  unfoldable pub root_up : ℕ → H → PathFiller H → List (Option H) → H
  unfolding fill
  root_up i root filler [] = root
  root_up i root filler (some node ∷ ps) =
      root_up (u8 (i + 1)) (h.combine (u8 (i + 1)) node root) filler ps
  root_up i root filler (none ∷ ps) =
      let (v, filler') = fill filler (u8 (i + 1)) in
      root_up (u8 (i + 1)) (h.combine (u8 (i + 1)) root v) filler' ps

  abbrev pub leaf_or_fill : Option H → PathFiller H → H × PathFiller H
  leaf_or_fill (some n) filler = (n, filler)
  leaf_or_fill none filler = fill filler 0

  -- `assert!(depth > 0)`: the panic is `none`.
  unfoldable pub root_at_depth : CommitmentTree H → ℕ → PathFiller H → Option H
  unfolding root_up
  root_at_depth t depth filler =
      if depth == 0
      then none
      else (let (l, filler₁) = leaf_or_fill t.left filler in
          let (r, filler₂) = leaf_or_fill t.right filler₁ in
          some (root_up 0 (h.combine 0 l r) filler₂ (padded (depth - 1) t.parents)))

  unfoldable pub root : ℕ → CommitmentTree H → Option H
  unfolding root_at_depth empty_filler
  root depth t = root_at_depth t depth empty_filler
