-- ===== src/ShardTree/Prunable/Sound/Truncate.antt =====
-- `truncate_to_position` on trees that stand for a sequence of leaves.
use incrementalmerkletree.Prelude.{
  ℕ, ◌-◌, ◌≤◌, ◌<◌, ◌≡◌, ◌⊎◌, ◌↔◌, ltb→lt, refl, arith, Option, some, none, if◌then◌else◌, leb,
  leb→le, ltb, lt→ltb, le→leb, ap, ◌∙◌, Bool-cases, inl, inr, >>=-some, fmap, elim-true, elim-false,
  pow_pos,
}
use incrementalmerkletree.Position.{Position}
use incrementalmerkletree.Position
use incrementalmerkletree.Address.{
  Address, position_range_start, position_range_end, position_range, in_range, max_position,
}
use incrementalmerkletree.Address.Shape.{Fits, end_eq}
use incrementalmerkletree.Address.Family.{
  left_of, right_of, left-Fits, right-Fits, children_eq, start-left, end-left, end-right,
}
use incrementalmerkletree.Hashable.{Hashable}
use incrementalmerkletree.ShardTree.Tree.{parent, leaf, nil}
use incrementalmerkletree.ShardTree.Prunable.{PrunableTree, unite}
use incrementalmerkletree.ShardTree.Prunable.Located.{
  LocatedPrunableTree, truncate_from, truncate_to_position,
}
use incrementalmerkletree.ShardTree.Prunable.Sound.{IsSound, unite-IsSound}
use incrementalmerkletree.ShardTree.Prunable.Sound.Siblings.{ltb-false}
use incrementalmerkletree.ShardTree.Prunable.Sound.Marked.{
  HasMarked, HasMarked-range, unite-HasMarked,
}
use incrementalmerkletree.ShardTree.Prunable.Sound.Ends.{
  EndsBy, EndsAt, EndsBy-range, EndsAt-range, unite-EndsBy,
}

max_position_eq : (a : Address) → Fits a → max_position a ≡ some (position_range_end a - 1)
unfolding max_position Position.sub
max_position_eq a fits = ground (arith, end_eq a fits, pow_pos a.level)

-- The marked leaves of a tree that is cut in its left or in its right half.
cut_left :
    {M T L R : Type 0} (p q : ℕ)
    → M ↔ (T ⊎ ⊥)
    → T ↔ (L × (q ≤ p))
    → (R → p < q)
    → M ↔ ((L ⊎ R) × (q ≤ p))
cut_left p q whole kept behind = (
  (λ m. elim (whole.0 m) [ inl t ↦ (inl (kept.0 t).0, (kept.0 t).1) | inr x ↦ absurd x ]),
  (λ (c, le). elim c [
    | inl l ↦ whole.1 (inl (kept.1 (l, le)))
    | inr r ↦ absurd (omega (arith, behind r, le))
  ]),
)

cut_right :
    {M T L R : Type 0} (p q : ℕ)
    → M ↔ (L ⊎ T)
    → T ↔ (R × (q ≤ p))
    → (L → q ≤ p)
    → M ↔ ((L ⊎ R) × (q ≤ p))
cut_right p q whole kept before = (
  (λ m. elim (whole.0 m) [ inl l ↦ (inl l, before l) | inr t ↦ (inr (kept.0 t).0, (kept.0 t).1) ]),
  (λ (c, le). elim c [ inl l ↦ whole.1 (inl l) | inr r ↦ whole.1 (inr (kept.1 (r, le))) ]),
)

module _ {ℓ} {H : Type ℓ} ⦃h : Hashable H⦄ (f : ℕ → H) (p : Position) (q : ℕ) where
  -- The tree for the node that ends at the position, or nothing, where no leaf ends there.
  abbrev Truncates : Address → PrunableTree H → Option (PrunableTree H) → Type ℓ
  Truncates a t none = Unit {ℓ} × (EndsAt p a t → ⊥)
  Truncates a t (some m) =
      IsSound f a m × EndsBy p a m × EndsAt p a t × (HasMarked q a m ↔ (HasMarked q a t × (q ≤ p)))

  unite_left :
      (a : Address) (ann : Option H) (l r : PrunableTree H) (o : Option (PrunableTree H))
      → Fits a
      → IsSound f a (parent ann l r)
      → p < position_range_start (right_of a)
      → Truncates (left_of a) l o
      → Truncates a (parent ann l r) (fmap (λ l'. unite (a.level - 1) ann l' nil) o)
  unite_left a ann l r none fits s behind known = (
    tt,
    (λ e. elim e [
      | inl e ↦ known.1 e
      | inr e ↦
          absurd
            (omega (arith, EndsAt-range f p (right_of a) r (right-Fits a fits s.0) s.3 e, behind))
    ]),
  )
  unite_left a ann l r (some t) fits s behind (sound, ends, at, kept) = (
    unite-IsSound f a ann t nil s.0 s.1 sound tt,
    unite-EndsBy p a ann t nil fits s.0 ends tt,
    inl at,
    cut_left p q (unite-HasMarked q a ann t nil s.0) kept (λ m.
        omega (arith, HasMarked-range f q (right_of a) r (right-Fits a fits s.0) s.3 m, behind)),
  )

  unite_right :
      (a : Address) (ann : Option H) (l r : PrunableTree H) (o : Option (PrunableTree H))
      → Fits a
      → IsSound f a (parent ann l r)
      → position_range_start (right_of a) ≤ p
      → Truncates (right_of a) r o
      → Truncates a (parent ann l r) (fmap (λ r'. unite (a.level - 1) ann l r') o)
  unite_right a ann l r none fits s le known = (
    tt,
    (λ e. elim e [
      | inl e ↦ absurd (
          omega (
            arith,
            EndsAt-range f p (left_of a) l (left-Fits a fits s.0) s.2 e,
            end-left a fits s.0,
            le,
          ))
      | inr e ↦ known.1 e
    ]),
  )
  unite_right a ann l r (some t) fits s le (sound, ends, at, kept) =
      let before =
        EndsBy-range f p (left_of a) l (left-Fits a fits s.0) s.2
          (omega (arith, end-left a fits s.0)) in
      (
        unite-IsSound f a ann l t s.0 s.1 s.2 sound,
        unite-EndsBy p a ann l t fits s.0 before ends,
        inr at,
        cut_right p q (unite-HasMarked q a ann l t s.0) kept (λ m. omega (
          arith,
          HasMarked-range f q (left_of a) l (left-Fits a fits s.0) s.2 m,
          end-left a fits s.0,
          le,
        )),
      )

  truncate_from-Truncates :
      (a : Address) (t : PrunableTree H)
      → Fits a
      → IsSound f a t
      → position_range_start a ≤ p
      → p < position_range_end a
      → (o : Option (PrunableTree H)) × (truncate_from p a t ≡ some o) × Truncates a t o
  unfolding truncate_from
  truncate_from-Truncates a nil fits s lo hi = (none, refl, (tt, (λ e. e)))
  truncate_from-Truncates a (leaf v) fits s lo hi =
      elim (Bool-cases (leb (position_range_end a - 1) p)) [
        | inl before ↦
            let last = leb→le (position_range_end a - 1) p before in
            (
              some (leaf v),
              ap (fmap (λ m. if leb m p then some (leaf v) else none)) (max_position_eq a fits)
                  ∙ rw before refl,
              (
                s,
                omega (arith, last),
                omega (arith, last),
                (
                  (λ m. (m, omega (arith, HasMarked-range f q a (leaf v) fits s m, last))),
                  (λ m. m.0),
                ),
              ),
            )
        | inr behind ↦ (
          none,
          ap (fmap (λ m. if leb m p then some (leaf v) else none)) (max_position_eq a fits)
              ∙ rw behind refl,
          (tt, (λ e. ground arith)),
        )
      ]
  truncate_from-Truncates a (parent ann l r) fits s lo hi =
      elim (Bool-cases (ltb p (position_range_start (right_of a)))) [
        | inl left ↦
            let behind : p < position_range_start (right_of a) = ltb→lt _ _ left in
            let (o, e, known) =
              truncate_from-Truncates (left_of a) l (left-Fits a fits s.0) s.2
                (omega (arith, start-left a fits s.0))
                (omega (arith, end-left a fits s.0, behind)) in
            (
              fmap (λ l'. unite (a.level - 1) ann l' nil) o,
              >>=-some (children_eq a fits s.0) _
                  ∙ elim-true left _ _
                  ∙ ap (fmap (fmap (λ l'. unite (a.level - 1) ann l' nil))) e,
              unite_left a ann l r o fits s behind known,
            )
        | inr right ↦
            let le = ltb-false _ _ right in
            let (o, e, known) =
              truncate_from-Truncates (right_of a) r (right-Fits a fits s.0) s.3 le
                (omega (arith, end-right a fits s.0)) in
            (
              fmap (λ r'. unite (a.level - 1) ann l r') o,
              >>=-some (children_eq a fits s.0) _
                  ∙ elim-false right _ _
                  ∙ ap (fmap (fmap (λ r'. unite (a.level - 1) ann l r'))) e,
              unite_right a ann l r o fits s le known,
            )
      ]

  -- For a tree at an address of 64 bits that stands for a sequence of leaves and a position
  -- below it, truncate_to_position does not panic. If a leaf of the tree ends with the
  -- position, it returns a tree at the same address that stands for the same leaves, whose
  -- leaves do not reach behind the position, and in which a leaf of level 0 is marked at
  -- exactly the positions up to this one where the tree has a marked one; otherwise it returns
  -- nothing.
  pub truncate_to_position-IsSound :
      (t : LocatedPrunableTree H)
      → Fits t.root_addr
      → IsSound f t.root_addr t.root
      → position_range_start t.root_addr ≤ p
      → p < position_range_end t.root_addr
      → ((root : PrunableTree H) × (truncate_to_position t p
            ≡ some (some (record { root_addr = t.root_addr; root = root })))
          × (IsSound f t.root_addr root
              × EndsBy p t.root_addr root
              × EndsAt p t.root_addr t.root
              × (HasMarked q t.root_addr root ↔ (HasMarked q t.root_addr t.root × (q ≤ p)))))
        ⊎ ((truncate_to_position t p ≡ some none) × ¬ (EndsAt p t.root_addr t.root))
  unfolding truncate_to_position in_range position_range
  truncate_to_position-IsSound t fits s lo hi =
      let (o, e, known) = truncate_from-Truncates t.root_addr t.root fits s lo hi in
      rw (le→leb _ _ lo, lt→ltb _ _ hi, e) (decide o known)
    where
      relocate : Option (PrunableTree H) → Option (LocatedPrunableTree H)
      relocate o = fmap (λ root. record { root_addr = t.root_addr; root = root }) o

      decide :
          (o : Option (PrunableTree H))
          → Truncates t.root_addr t.root o
          → ((root : PrunableTree H) × (some (relocate o)
                ≡ some (some (record { root_addr = t.root_addr; root = root })))
              × (IsSound f t.root_addr root
                  × EndsBy p t.root_addr root
                  × EndsAt p t.root_addr t.root
                  × (HasMarked q t.root_addr root ↔ (HasMarked q t.root_addr t.root × (q ≤ p)))))
            ⊎ ((some (relocate o) ≡ some none) × ¬ (EndsAt p t.root_addr t.root))
      decide none known = inr (refl, known.1)
      decide (some root) known = inl (root, refl, known)
