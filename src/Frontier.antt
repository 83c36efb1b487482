-- ===== src/Frontier.antt =====
-- `NonEmptyFrontier` of incrementalmerkletree/src/frontier.rs. A frontier keeps the last leaf
-- and, for each set digit of its position, the root of the full subtree left of the path.
-- `none` is the panic of an index out of range.
pub mod Ommers
pub mod Append
pub mod Root
pub mod Witness
pub mod Bounded
use incrementalmerkletree.Prelude.{
  ℕ, zero, suc, ◌+◌, Option, some, none, List, [], ◌∷◌, ◌++◌, if◌then◌else◌, ◌==◌, Bool, true,
  false, length, get_elem?, foldl, foldl_option, ◌>>=◌, fmap, Result, ok, err,
}
use incrementalmerkletree.Retention.{Source, past, future}
use incrementalmerkletree.Level.{Level, iter_to}
use incrementalmerkletree.Level
use incrementalmerkletree.Position.{Position, past_ommer_count, root_level, is_right_child}
use incrementalmerkletree.Position
use incrementalmerkletree.Address.{Address}
use incrementalmerkletree.Hashable.{Hashable, empty_root}
use incrementalmerkletree.WitnessAddrs.{witness_addrs}

pub data FrontierError : Type 0 where
  position_mismatch : ℕ → FrontierError
  max_depth_exceeded : ℕ → FrontierError

pub record NonEmptyFrontier {ℓ} (H : Type ℓ) : Type ℓ where
  pub position : Position
  pub leaf : H
  pub ommers : List H

module _ {ℓ} {H : Type ℓ} where
  unfoldable pub new : H → NonEmptyFrontier H
  new leaf = record { position = 0; leaf = leaf; ommers = [] }

  unfoldable pub from_parts : Position → H → List H → Result FrontierError (NonEmptyFrontier H)
  from_parts position leaf ommers =
      if length ommers == past_ommer_count position
      then ok (record { position = position; leaf = leaf; ommers = ommers })
      else err (position_mismatch (past_ommer_count position))

  unfoldable pub into_parts : NonEmptyFrontier H → Position × H × List H
  into_parts f = (f.position, f.leaf, f.ommers)

-- The carry of `append` with its level, and the new ommers so far.
abbrev pub Carry {ℓ} : Type ℓ → Type ℓ
Carry H = Option (H × Level) × List H

-- A carry that is left after the loop is one more ommer.
abbrev pub push_carry {ℓ} : {H : Type ℓ} → Carry H → List H
push_carry (some (carry_ommer, _), new_ommers) = new_ommers ++ carry_ommer ∷ []
push_carry (none, new_ommers) = new_ommers

module _ {ℓ} {H : Type ℓ} ⦃h : Hashable H⦄ where
  -- One round of the loop of `append`.
  unfoldable pub append_step : List H → Carry H → Address × Source → Option (Carry H)
  unfolding Level.add
  append_step ommers s (addr, future) = some s
  append_step ommers (some (carry_ommer, carry_lvl), new_ommers) (addr, past i) = do
    ommer ← get_elem? ommers i
    some (
        if carry_lvl == addr.level
        then (some (h.combine addr.level ommer carry_ommer, Level.add addr.level 1), new_ommers)
        else (none, new_ommers ++ carry_ommer ∷ ommer ∷ []))
  append_step ommers (none, new_ommers) (addr, past i) = do
    ommer ← get_elem? ommers i
    some (none, new_ommers ++ ommer ∷ [])

  unfoldable pub append : NonEmptyFrontier H → H → Option (NonEmptyFrontier H)
  unfolding append_step Position.add
  append f leaf =
      let position = Position.add f.position 1 in
      if is_right_child position
      then some (record { position = position; leaf = leaf; ommers = f.leaf ∷ f.ommers })
      else fmap (λ s. record { position = position; leaf = leaf; ommers = push_carry s })
          (foldl_option (append_step f.ommers) (some (f.leaf, 0), [])
            (witness_addrs f.position (root_level position)))

  -- One round of the fold of `root`: the digest so far and the level that it completes.
  unfoldable pub root_step : List H → H × Level → Address × Source → Option (H × Level)
  unfolding Level.add
  root_step ommers (digest, complete_lvl) (addr, source) =
      let filled =
        foldl (λ d l. h.combine l d (empty_root l)) digest (iter_to complete_lvl addr.level) in
      elim source [
        | past i ↦ get_elem? ommers i >>= λ ommer.
            some (h.combine addr.level ommer filled, Level.add addr.level 1)
        | future ↦
            some (h.combine addr.level filled (empty_root addr.level), Level.add addr.level 1)
      ]

  unfoldable pub root : NonEmptyFrontier H → Option Level → Option H
  unfolding root_step
  root f level =
      let max_level : Level = elim level [ some l ↦ l | none ↦ root_level f.position ] in
      fmap (λ s. s.0)
        (foldl_option (root_step f.ommers) (f.leaf, 0) (witness_addrs f.position max_level))

  -- One element of `witness`: an ommer, or a node that the caller supplies.
  unfoldable pub witness_elem :
      List H → (Address → Option H) → Address × Source → Option (Result Address H)
  witness_elem ommers complement_nodes (addr, past i) = fmap ok (get_elem? ommers i)
  witness_elem ommers complement_nodes (addr, future) =
      some (elim (complement_nodes addr) [ some v ↦ ok v | none ↦ err addr ])

  -- `collect` into a `Result` stops at the first error.
  unfoldable pub witness_elems :
      List H → (Address → Option H) → List (Address × Source) → Option (Result Address (List H))
  unfolding witness_elem
  witness_elems ommers complement_nodes [] = some (ok [])
  witness_elems ommers complement_nodes (item ∷ items) =
      witness_elem ommers complement_nodes item >>= λ r. elim r [
        | err e ↦ some (err e)
        | ok v ↦
            fmap (λ rest. elim rest [ ok vs ↦ ok (v ∷ vs) | err e ↦ err e ])
              (witness_elems ommers complement_nodes items)
      ]

  unfoldable pub witness :
      NonEmptyFrontier H → ℕ → (Address → Option H) → Option (Result Address (List H))
  unfolding witness_elems
  witness f depth complement_nodes =
      witness_elems f.ommers complement_nodes (witness_addrs f.position depth)
