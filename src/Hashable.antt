-- ===== src/Hashable.antt =====
-- The trait `Hashable` and `MerklePath` of incrementalmerkletree/src/lib.rs. The hash is a
-- parameter: nothing is assumed of it.
pub mod Node
pub mod Path
use incrementalmerkletree.Prelude.{
  ℕ, zero, suc, ◌≡◌, refl, List, [], ◌∷◌, ◌++◌, foldl, Option, some, none, length, ◌==◌,
  if◌then◌else◌, shr, bit_and, u8, ◌+◌,
}
use incrementalmerkletree.Level.{Level, iter_to}
use incrementalmerkletree.Position.{Position}

pub record Hashable {ℓ} (H : Type ℓ) : Type ℓ where
  pub empty_leaf : H
  pub combine : Level → H → H → H

module _ {ℓ} {H : Type ℓ} ⦃h : Hashable H⦄ where
  -- The default method of the trait.
  unfoldable pub empty_root : Level → H
  unfolding iter_to
  empty_root level = foldl (λ v lvl. h.combine lvl v v) h.empty_leaf (iter_to 0 level)

-- A path from a leaf to the root of a tree of `depth` levels.
pub record MerklePath {ℓ} (H : Type ℓ) : Type ℓ where
  pub path_elems : List H
  pub position : Position

module _ {ℓ} {H : Type ℓ} where
  -- `none` is the `Err`.
  unfoldable pub from_parts : ℕ → List H → Position → Option (MerklePath H)
  from_parts depth path_elems position =
      if length path_elems == depth
      then some (record { path_elems = path_elems; position = position })
      else none

module _ {ℓ} {H : Type ℓ} ⦃h : Hashable H⦄ where
  -- The fold of `root` over the elements, zipped with their levels `i`, `i + 1`, and so on.
  unfoldable pub root_from : Position → ℕ → H → List H → H
  root_from position i root [] = root
  root_from position i root (e ∷ es) =
      root_from position (u8 (i + 1))
        (if bit_and (shr position i) 1 == 0 then h.combine i root e else h.combine i e root) es

  unfoldable pub root : MerklePath H → H → H
  unfolding root_from
  root path leaf = root_from path.position 0 leaf path.path_elems
