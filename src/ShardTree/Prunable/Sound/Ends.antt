-- ===== src/ShardTree/Prunable/Sound/Ends.antt =====
-- Where the leaves of a prunable tree end.
use incrementalmerkletree.Prelude.{
  ℕ, ◌+◌, ◌-◌, ◌≤◌, ◌<◌, ◌≡◌, ◌⊎◌, arith, Option, some, none, ◌&&◌, ◌==◌, bit_or, bit_and,
  Bool-cases, inl, inr, pow_pos,
}
use incrementalmerkletree.Position.{Position}
use incrementalmerkletree.Address.{Address, position_range_start, position_range_end}
use incrementalmerkletree.Address.Shape.{Fits, start_eq, end_eq}
use incrementalmerkletree.Address.Family.{
  left_of, right_of, left-Fits, right-Fits, start-left, end-right, left_within, right_within,
}
use incrementalmerkletree.Hashable.{Hashable}
use incrementalmerkletree.ShardTree.Tree.{parent, leaf, nil}
use incrementalmerkletree.ShardTree.Flags.{ephemeral, marked, reference}
use incrementalmerkletree.ShardTree.Prunable.{PrunableTree, unite}
use incrementalmerkletree.ShardTree.Prunable.Sound.{IsSound}

module _ {ℓ} {H : Type ℓ} ⦃h : Hashable H⦄ where
  -- No leaf of the tree reaches behind position `p`.
  abbrev pub EndsBy : Position → Address → PrunableTree H → Type 0
  EndsBy p a (parent ann l r) = EndsBy p (left_of a) l × EndsBy p (right_of a) r
  EndsBy p a (leaf v) = position_range_end a ≤ p + 1
  EndsBy p a nil = Unit

  pub EndsBy-range :
      (f : ℕ → H) (p : Position) (a : Address) (t : PrunableTree H)
      → Fits a
      → IsSound f a t
      → position_range_end a ≤ p + 1
      → EndsBy p a t
  EndsBy-range f p a nil fits s le = tt
  EndsBy-range f p a (leaf v) fits s le = le
  EndsBy-range f p a (parent ann l r) fits s le = (
    EndsBy-range f p (left_of a) l (left-Fits a fits s.0) s.2
        (omega (arith, left_within a fits s.0)),
    EndsBy-range f p (right_of a) r (right-Fits a fits s.0) s.3
        (omega (arith, end-right a fits s.0)),
  )

  pub unite-EndsBy :
      (p : Position) (a : Address) (ann : Option H) (l r : PrunableTree H)
      → Fits a
      → 0 < a.level
      → EndsBy p (left_of a) l
      → EndsBy p (right_of a) r
      → EndsBy p a (unite (a.level - 1) ann l r)
  unfolding unite
  unite-EndsBy p a none nil nil fits pos sl sr = tt
  unite-EndsBy p a (some v) nil nil fits pos sl sr = (tt, tt)
  unite-EndsBy p a ann (leaf (lv, lf)) (leaf (rv, rf)) fits pos sl sr =
      elim (Bool-cases ((lf == ephemeral) && (bit_and rf (bit_or marked reference) == ephemeral))) [
        | inl both ↦ rw both (omega (arith, sr, end-right a fits pos))
        | inr keep ↦ rw keep (sl, sr)
      ]
  unite-EndsBy p a ann l r fits pos sl sr = (sl, sr)

  -- Some leaf of the tree ends with position `p`.
  abbrev pub EndsAt : Position → Address → PrunableTree H → Type 0
  EndsAt p a (parent ann l r) = EndsAt p (left_of a) l ⊎ EndsAt p (right_of a) r
  EndsAt p a (leaf v) = position_range_end a ≡ p + 1
  EndsAt p a nil = ⊥

  pub EndsAt-range :
      (f : ℕ → H) (p : Position) (a : Address) (t : PrunableTree H)
      → Fits a
      → IsSound f a t
      → EndsAt p a t
      → (position_range_start a ≤ p) × (p < position_range_end a)
  EndsAt-range f p a nil fits s e = absurd e
  EndsAt-range f p a (leaf v) fits s e =
      (omega (arith, start_eq a fits, end_eq a fits, pow_pos a.level), omega arith)
  EndsAt-range f p a (parent ann l r) fits s (inl e) =
      let (lo, hi) = EndsAt-range f p (left_of a) l (left-Fits a fits s.0) s.2 e in
      (omega (arith, start-left a fits s.0), omega (arith, left_within a fits s.0))
  EndsAt-range f p a (parent ann l r) fits s (inr e) =
      let (lo, hi) = EndsAt-range f p (right_of a) r (right-Fits a fits s.0) s.3 e in
      (omega (arith, right_within a fits s.0), omega (arith, end-right a fits s.0))
