-- ===== src/ShardTree/Prunable/Sound.antt =====
-- What a prunable tree stands for: a sequence of leaves `f`, of which it knows some nodes.
pub mod RootHash
pub mod Marked
pub mod Conflict
pub mod Merge
pub mod Extend
pub mod Insert
pub mod Siblings
pub mod Witness
pub mod Ommers
pub mod Ends
pub mod Truncate
pub mod Subtree
use incrementalmerkletree.Prelude.{
  ℕ, zero, suc, ◌+◌, ◌-◌, ◌*◌, ◌/◌, ◌^◌, ◌≤◌, ◌<◌, ◌≡◌, refl, arith, Option, some, none,
  if◌then◌else◌, ltb, lt→ltb, le→ltb, ap, ap₂, sym, ◌∙◌, Bool, true, false, ◌&&◌, ◌==◌, bit_or,
  bit_and, Bool-cases, inl, inr,
}
use incrementalmerkletree.Address.{Address, position_range_start, position_range_end}
use incrementalmerkletree.Address.Shape.{Fits, start_eq, end_eq}
use incrementalmerkletree.Address.Family.{left_of, right_of}
use incrementalmerkletree.Hashable.{Hashable, empty_root}
use incrementalmerkletree.Hashable.Node.{node, node_ext, node_empty}
use incrementalmerkletree.ShardTree.Tree.{Tree, parent, leaf, nil, reannotate_root}
use incrementalmerkletree.ShardTree.Flags.{ephemeral, marked, reference}
use incrementalmerkletree.ShardTree.Prunable.{PrunableTree, unite}

module _ {ℓ} {H : Type ℓ} ⦃h : Hashable H⦄ where
  -- The value of the node at an address.
  abbrev pub value : (ℕ → H) → Address → H
  value f a = node f a.level a.index

  -- A cached root, if there is one, is the value of the node.
  abbrev pub CachedIsSound : (ℕ → H) → Address → Option H → Type ℓ
  CachedIsSound f a none = Unit
  CachedIsSound f a (some v) = v ≡ value f a

  -- Every leaf and every cached root of the tree is the value of its node, and no parent stands
  -- on level 0.
  abbrev pub IsSound : (ℕ → H) → Address → PrunableTree H → Type ℓ
  IsSound f a (parent ann l r) =
      (0 < a.level) × CachedIsSound f a ann × IsSound f (left_of a) l × IsSound f (right_of a) r
  IsSound f a (leaf (v, flags)) = v ≡ value f a
  IsSound f a nil = Unit

  -- The leaves at positions less than `truncate_at`, and empty ones behind.
  abbrev pub truncated : ℕ → (ℕ → H) → ℕ → H
  truncated truncate_at f i = if ltb i truncate_at then f i else h.empty_leaf

  pub value_parent :
      (f : ℕ → H) (a : Address)
      → 0 < a.level
      → h.combine (a.level - 1) (value f (left_of a)) (value f (right_of a)) ≡ value f a
  value_parent f a pos =
      let up : suc (a.level - 1) ≡ a.level = omega arith in ap (λ k. node f k a.index) up

  pub value-truncated_right :
      (f : ℕ → H) (a : Address) (truncate_at : ℕ)
      → Fits a
      → truncate_at ≤ position_range_start a
      → value (truncated truncate_at f) a ≡ empty_root a.level
  value-truncated_right f a truncate_at fits le =
      node_ext (truncated truncate_at f) (λ _. h.empty_leaf) a.level a.index
        (λ j lo hi. rw (le→ltb j truncate_at (omega (arith, start_eq a fits))) refl)
      ∙ node_empty a.level a.index

  pub value-truncated_left :
      (f : ℕ → H) (a : Address) (truncate_at : ℕ)
      → Fits a
      → position_range_end a ≤ truncate_at
      → value (truncated truncate_at f) a ≡ value f a
  value-truncated_left f a truncate_at fits le =
      node_ext (truncated truncate_at f) f a.level a.index
        (λ j lo hi. rw (lt→ltb j truncate_at (omega (arith, end_eq a fits))) refl)

  -- Uniting the two children of a node gives a tree for the node.
  pub unite-IsSound :
      (f : ℕ → H) (a : Address) (ann : Option H) (l r : PrunableTree H)
      → 0 < a.level
      → CachedIsSound f a ann
      → IsSound f (left_of a) l
      → IsSound f (right_of a) r
      → IsSound f a (unite (a.level - 1) ann l r)
  unfolding unite
  unite-IsSound f a none nil nil pos c sl sr = tt
  unite-IsSound f a (some v) nil nil pos c sl sr = (pos, c, sl, sr)
  unite-IsSound f a ann (leaf (lv, lf)) (leaf (rv, rf)) pos c sl sr =
      elim (Bool-cases ((lf == ephemeral) && (bit_and rf (bit_or marked reference) == ephemeral))) [
        | inl both ↦ rw both (ap₂ (h.combine (a.level - 1)) sl sr ∙ value_parent f a pos)
        | inr keep ↦ rw keep (pos, c, sl, sr)
      ]
  unite-IsSound f a ann l r pos c sl sr = (pos, c, sl, sr)

  pub reannotate_root-IsSound :
      (f : ℕ → H) (a : Address) (t : PrunableTree H) (v : Option H)
      → CachedIsSound f a v
      → IsSound f a t
      → IsSound f a (reannotate_root t v)
  unfolding reannotate_root
  reannotate_root-IsSound f a (parent ann l r) v c s = (s.0, c, s.2, s.3)
  reannotate_root-IsSound f a (leaf x) v c s = s
  reannotate_root-IsSound f a nil v c s = tt
