-- ===== src/ShardTree/Prunable/Sound/RootHash.antt =====
-- `PrunableTree::root_hash` on trees that stand for a sequence of leaves.
use incrementalmerkletree.Prelude.{
  ℕ, ◌-◌, ◌<◌, ◌≡◌, ◌⊎◌, refl, Option, some, none, if◌then◌else◌, leb, leb→le, ap, ap₂, sym, ◌∙◌,
  Bool-cases, inl, inr, Result, ok, err, List, [], ◌∷◌, >>=-some, NonEmpty, NonEmpty-++,
}
use incrementalmerkletree.Address.{Address, position_range_start, position_range_end}
use incrementalmerkletree.Address.Shape.{Fits}
use incrementalmerkletree.Address.Family.{left_of, right_of, left-Fits, right-Fits, children_eq}
use incrementalmerkletree.Hashable.{Hashable, empty_root}
use incrementalmerkletree.ShardTree.Tree.{parent, leaf, nil}
use incrementalmerkletree.ShardTree.Prunable.{
  PrunableTree, root_hash, parent_root, accumulate_result_with,
}
use incrementalmerkletree.ShardTree.Prunable.Sound.{
  value, IsSound, CachedIsSound, truncated, value_parent, value-truncated_right,
  value-truncated_left,
}

module _ {ℓ} {H : Type ℓ} ⦃h : Hashable H⦄ (f : ℕ → H) (truncate_at : ℕ) where
  -- A root, if one is returned, is that of the truncated leaves; an error names some node.
  abbrev pub Answers : Address → Result (List Address) H → Type ℓ
  Answers a (ok v) = v ≡ value (truncated truncate_at f) a
  Answers a (err missing) = NonEmpty missing × Unit {ℓ}

  abbrev pub Answered : Address → Option (Result (List Address) H) → Type ℓ
  Answered a o = (r : Result (List Address) H) × (o ≡ some r) × Answers a r

  combine-Answers :
      (a : Address) (l r : Result (List Address) H)
      → 0 < a.level
      → Answers (left_of a) l
      → Answers (right_of a) r
      → Answers a (accumulate_result_with l r (h.combine (a.level - 1)))
  unfolding accumulate_result_with
  combine-Answers a (ok v) (ok w) pos sl sr =
      ap₂ (h.combine (a.level - 1)) sl sr ∙ value_parent (truncated truncate_at f) a pos
  combine-Answers a (ok v) (err ws) pos sl sr = sr
  combine-Answers a (err vs) (ok w) pos sl sr = sl
  combine-Answers a (err vs) (err ws) pos sl sr = (NonEmpty-++ vs ws sl.0, tt)

  parent_root-Answered :
      (a : Address) (ann : Option H) (c : Result (List Address) H)
      → Fits a
      → CachedIsSound f a ann
      → Answers a c
      → Answered a (parent_root a truncate_at ann (some c))
  parent_root-Answered a ann c fits cached sc =
      elim (Bool-cases (leb truncate_at (position_range_start a))) [
        | inl out ↦ (
          ok (empty_root a.level),
          rw out refl,
          sym (value-truncated_right f a truncate_at fits (leb→le _ _ out)),
        )
        | inr inside ↦ rw inside (choose ann cached)
      ]
    where
      choose :
          (ann : Option H)
          → CachedIsSound f a ann
          → Answered a (elim ann [
            | none ↦ some c
            | some rc ↦ if leb (position_range_end a) truncate_at then some (ok rc) else some c
          ])
      choose none cached = (c, refl, sc)
      choose (some v) cached = elim (Bool-cases (leb (position_range_end a) truncate_at)) [
        | inl whole ↦ (
          ok v,
          rw whole refl,
          cached ∙ sym (value-truncated_left f a truncate_at fits (leb→le _ _ whole)),
        )
        | inr split ↦ (c, rw split refl, sc)
      ]

  pub root_hash-Answered :
      (a : Address) (t : PrunableTree H)
      → Fits a
      → IsSound f a t
      → Answered a (root_hash t a truncate_at)
  unfolding root_hash
  root_hash-Answered a nil fits s = elim (Bool-cases (leb truncate_at (position_range_start a))) [
    | inl out ↦ (
      ok (empty_root a.level),
      rw (out) refl,
      sym (value-truncated_right f a truncate_at fits (leb→le _ _ out)),
    )
    | inr inside ↦ (err (a ∷ []), rw inside refl, (tt, tt))
  ]
  root_hash-Answered a (leaf (v, flags)) fits s =
      elim (Bool-cases (leb truncate_at (position_range_start a))) [
        | inl out ↦ (
          ok (empty_root a.level),
          rw out refl,
          sym (value-truncated_right f a truncate_at fits (leb→le _ _ out)),
        )
        | inr inside ↦ elim (Bool-cases (leb (position_range_end a) truncate_at)) [
          | inl whole ↦ (
            ok v,
            rw (inside, whole) refl,
            s ∙ sym (value-truncated_left f a truncate_at fits (leb→le _ _ whole)),
          )
          | inr split ↦ (err (a ∷ []), rw (inside, split) refl, (tt, tt))
        ]
      ]
  root_hash-Answered a (parent ann l r) fits s =
      let (lr, el, sl) = root_hash-Answered (left_of a) l (left-Fits a fits s.0) s.2 in
      let (rr, er, sr) = root_hash-Answered (right_of a) r (right-Fits a fits s.0) s.3 in
      let c = accumulate_result_with lr rr (h.combine (a.level - 1)) in
      let (x, ex, sx) = parent_root-Answered a ann c fits s.1 (combine-Answers a lr rr s.0 sl sr) in
      let computed = >>=-some (children_eq a fits s.0) _ ∙ >>=-some el _ ∙ >>=-some er _ in
      (x, ap (parent_root a truncate_at ann) computed ∙ ex, sx)

  -- For a tree at an address of 64 bits whose leaves and cached roots are those of a sequence
  -- of leaves, root_hash does not panic: it returns the root of the leaves before the
  -- truncation point with empty leaves behind them, or an error.
  pub root_hash_sound :
      (a : Address) (t : PrunableTree H)
      → Fits a
      → IsSound f a t
      → (root_hash t a truncate_at ≡ some (ok (value (truncated truncate_at f) a)))
        ⊎ ((missing : List Address) × (root_hash t a truncate_at ≡ some (err missing)))
  root_hash_sound a t fits s =
      let (r, e, answers) = root_hash-Answered a t fits s in answer r e answers
    where
      answer :
          (r : Result (List Address) H)
          → root_hash t a truncate_at ≡ some r
          → Answers a r
          → (root_hash t a truncate_at ≡ some (ok (value (truncated truncate_at f) a)))
            ⊎ ((missing : List Address) × (root_hash t a truncate_at ≡ some (err missing)))
      answer (ok w) e sw = inl (e ∙ ap (λ v. some (ok v)) sw)
      answer (err missing) e sw = inr (missing, e)
