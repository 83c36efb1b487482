-- ===== src/Frontier/Bounded.antt =====
-- `Frontier` of incrementalmerkletree/src/frontier.rs: a possibly empty frontier whose tree has
-- `depth` levels, the source's constant `DEPTH`. The outer `Option` of a result is a panic.
pub mod Leaves
use incrementalmerkletree.Prelude.{
  ℕ, ◌+◌, Option, some, none, List, if◌then◌else◌, leb, Bool, true, false, fmap, ◌>>=◌, Result, ok,
  err, u64, and_then,
}
use incrementalmerkletree.Level.{Level}
use incrementalmerkletree.Position.{Position, root_level, is_complete_subtree}
use incrementalmerkletree.Address.{Address}
use incrementalmerkletree.Hashable.{Hashable, MerklePath, empty_root}
use incrementalmerkletree.Hashable
use incrementalmerkletree.Frontier.{NonEmptyFrontier, FrontierError, max_depth_exceeded}
use incrementalmerkletree.Frontier as NonEmpty

pub record Frontier {ℓ} (H : Type ℓ) : Type ℓ where
  pub frontier : Option (NonEmptyFrontier H)

module _ {ℓ} {H : Type ℓ} where
  unfoldable pub try_from : ℕ → NonEmptyFrontier H → Result FrontierError (Frontier H)
  try_from depth f =
      if leb (root_level f.position) depth
      then ok (record { frontier = some f })
      else err (max_depth_exceeded (root_level f.position))

  unfoldable pub empty : Frontier H
  empty = record { frontier = none }

  unfoldable pub from_parts : ℕ → Position → H → List H → Result FrontierError (Frontier H)
  unfolding try_from
  from_parts depth position leaf ommers =
      and_then (NonEmpty.from_parts position leaf ommers) (try_from depth)

  unfoldable pub tree_size : Frontier H → ℕ
  tree_size f = elim f.frontier [ none ↦ 0 | some fr ↦ u64 (fr.position + 1) ]

module _ {ℓ} {H : Type ℓ} ⦃h : Hashable H⦄ where
  -- The new frontier, and whether there was room.
  unfoldable pub append : ℕ → Frontier H → H → Option (Frontier H × Bool)
  unfolding NonEmpty.new
  append depth f value = elim f.frontier [
    | none ↦ some (record { frontier = some (NonEmpty.new value) }, true)
    | some fr ↦
        if is_complete_subtree fr.position depth
        then some (f, false)
        else fmap (λ fr'. (record { frontier = some fr' }, true)) (NonEmpty.append fr value)
  ]

  unfoldable pub root : ℕ → Frontier H → Option H
  root depth f = elim f.frontier [
    | none ↦ some (empty_root depth)
    | some fr ↦ NonEmpty.root fr (some depth)
  ]

  unfoldable pub witness :
      ℕ → Frontier H → (Address → Option H) → Option (Result Address (Option (MerklePath H)))
  unfolding Hashable.from_parts
  witness depth f complement_nodes = elim f.frontier [
    | none ↦ some (ok none)
    | some fr ↦ NonEmpty.witness fr depth complement_nodes >>= λ r. elim r [
      | err e ↦ some (err e)
      | ok path ↦ fmap (λ m. ok (some m)) (Hashable.from_parts depth path fr.position)
    ]
  ]
