-- ===== src/ShardTree/Sharded/FromShards/Stack.antt =====
-- The stack of `root_from_shards` of shardtree/src/lib.rs: the left siblings on the way from the next
-- shard up to the node whose root is computed.
use incrementalmerkletree.Prelude.{
  ℕ, zero, suc, ◌+◌, ◌-◌, ◌≤◌, ◌<◌, [], ◌∷◌, false, lt→ltb, ◌≡◌, ◌⊎◌, refl, sym, ap, ap₂, ◌∙◌, inl,
  inr, subst, arith, elim-true, elim-false, le→ltb,
}
use incrementalmerkletree.Level.{Level}
use incrementalmerkletree.Address.{
  Address, parent as parent_addr, address_eq, position_range_start, position_range_end,
}
use incrementalmerkletree.Address.Shape.{Fits}
use incrementalmerkletree.Address.Descent.{address_eq_iff}
use incrementalmerkletree.Address.Family.{
  left_within, left_of, right_of, left-Fits, right-Fits, parent-left, parent-right, start-left,
  end-left, end-right,
}
use incrementalmerkletree.Hashable.{Hashable, empty_root}
use incrementalmerkletree.ShardTree.Prunable.Sound.{
  value, truncated, value_parent, value-truncated_right,
}
use incrementalmerkletree.ShardTree.Sharded.FromShards.{
  RootStack, push_root, push_right, pad, collapse, stack_root,
}

module _ {ℓ} {H : Type ℓ} where
  -- The next element of the stack stands on the level of the node or above.
  unfoldable HeadAbove : Level → RootStack H → Type 0
  HeadAbove level [] = Unit
  HeadAbove level ((a, v) ∷ s) = (level ≤ a.level) × (level < (parent_addr a).level)

  HeadAbove-mono : (k l : Level) (s : RootStack H) → k ≤ l → HeadAbove l s → HeadAbove k s
  unfolding HeadAbove
  HeadAbove-mono k l [] le h = tt
  HeadAbove-mono k l ((a, v) ∷ s) le (h, i) = (omega arith, omega arith)

module _ {ℓ} {H : Type ℓ} ⦃h : Hashable H⦄ (g : ℕ → H) (top : Address) where
  -- The stack when the node at the address comes next.
  pub data Stack : Address → RootStack H → Type ℓ where
    at_top : Stack top []
    from_left : (p : Address) (s : RootStack H) → 0 < p.level → Stack p s → Stack (left_of p) s
    from_right :
        (p : Address) (s : RootStack H)
        → 0 < p.level
        → Stack p s
        → Stack (right_of p) ((left_of p, value g (left_of p)) ∷ s)

  pub Stack-Fits : (q : Address) (s : RootStack H) → Fits top → Stack q s → Fits q
  Stack-Fits _ _ fits at_top = fits
  Stack-Fits _ _ fits (from_left p s pos st) = left-Fits p (Stack-Fits p s fits st) pos
  Stack-Fits _ _ fits (from_right p s pos st) = right-Fits p (Stack-Fits p s fits st) pos

  pub Stack-end :
      (q : Address) (s : RootStack H)
      → Fits top
      → Stack q s
      → position_range_end q ≤ position_range_end top
  Stack-end _ _ fits at_top = omega arith
  Stack-end _ _ fits (from_left p s pos st) =
      omega (arith, left_within p (Stack-Fits p s fits st) pos, Stack-end p s fits st)
  Stack-end _ _ fits (from_right p s pos st) =
      omega (arith, end-right p (Stack-Fits p s fits st) pos, Stack-end p s fits st)

  pub Stack-level : (q : Address) (s : RootStack H) → Stack q s → q.level ≤ top.level
  Stack-level _ _ at_top = omega arith
  Stack-level _ _ (from_left p s pos st) = omega (arith, Stack-level p s st)
  Stack-level _ _ (from_right p s pos st) = omega (arith, Stack-level p s st)

  Stack-HeadAbove : (q : Address) (s : RootStack H) → Fits top → Stack q s → HeadAbove q.level s
  unfolding HeadAbove
  Stack-HeadAbove _ _ fits at_top = tt
  Stack-HeadAbove _ _ fits (from_left p s pos st) =
      HeadAbove-mono (p.level - 1) p.level s (omega arith) (Stack-HeadAbove p s fits st)
  Stack-HeadAbove _ _ fits (from_right p s pos st) =
      (omega arith, rw (parent-left p (Stack-Fits p s fits st).levels pos) (omega arith))

  -- The root is on the stack alone, or the next node to the right comes next.
  abbrev pub Pushed : Address → RootStack H → Type ℓ
  Pushed q r =
      ((r ≡ (top, value g top) ∷ []) × (position_range_end q ≡ position_range_end top))
      ⊎ ((n : Address) × (n.level ≡ q.level) × (n.index ≡ q.index + 1) × Stack n r)

  address_eq-higher : (a b : Address) → b.level < a.level → address_eq a b ≡ false
  unfolding address_eq
  address_eq-higher a b lt = ground arith

  push_right-left :
      (p : Address) (s : RootStack H) (v : H)
      → p.level < 64
      → 0 < p.level
      → HeadAbove p.level s
      → push_right s (left_of p) v ≡ (left_of p, v) ∷ s
  unfolding push_right HeadAbove
  push_right-left p [] v lt pos above = refl
  push_right-left p ((a, w) ∷ s) v lt pos (le, up) =
      elim-false
        (address_eq-higher (parent_addr a) (parent_addr (left_of p)) (
          subst (λ (c : Address). c.level < (parent_addr a).level) (sym (parent-left p lt pos)) up))
        _ _

  push_right-right :
      (p : Address) (s : RootStack H)
      → p.level < 64
      → 0 < p.level
      → push_right ((left_of p, value g (left_of p)) ∷ s) (right_of p) (value g (right_of p))
        ≡ push_right s p (value g p)
  unfolding push_right
  push_right-right p s lt pos =
      elim-true
        (ap₂ address_eq (parent-left p lt pos) (parent-right p lt pos)
          ∙ (address_eq_iff p p).1 refl)
        _ _
      ∙ ap₂ (push_right s) (parent-right p lt pos) (value_parent g p pos)

  left-Pushed :
      (p : Address) (r : RootStack H) → Fits p → 0 < p.level → Pushed p r → Pushed (right_of p) r
  left-Pushed p r fits pos (inl (e, ends)) = inl (e, end-right p fits pos ∙ ends)
  left-Pushed p r fits pos (inr (n, level, index, st)) =
      inr (left_of n, omega arith, omega arith, from_left n r (omega arith) st)

  push_right-Pushed :
      (q : Address) (s : RootStack H) → Fits top → Stack q s → Pushed q (push_right s q (value g q))
  unfolding push_right
  push_right-Pushed _ _ fits at_top = inl (refl, refl)
  push_right-Pushed _ _ fits (from_left p s pos st) =
      subst (Pushed (left_of p))
        (sym (
          push_right-left p s (value g (left_of p)) (Stack-Fits p s fits st).levels pos
            (Stack-HeadAbove p s fits st)))
        (inr (right_of p, refl, refl, from_right p s pos st))
  push_right-Pushed _ _ fits (from_right p s pos st) =
      subst (Pushed (right_of p)) (sym (push_right-right p s (Stack-Fits p s fits st).levels pos)) (
        left-Pushed p (push_right s p (value g p)) (Stack-Fits p s fits st) pos
          (push_right-Pushed p s fits st))

  push_root-empty : (q : Address) (v : H) → push_root [] q v ≡ (q, v) ∷ []
  unfolding push_root push_right
  push_root-empty q v = ground arith

  push_root-left :
      (p : Address) (s : RootStack H) (v : H) → push_root s (left_of p) v ≡ (left_of p, v) ∷ s
  unfolding push_root
  push_root-left p s v = ground arith

  push_root-right :
      (p : Address) (s : RootStack H) (v : H)
      → push_root s (right_of p) v ≡ push_right s (right_of p) v
  unfolding push_root
  push_root-right p s v = ground arith

  pub push_root-Pushed :
      (q : Address) (s : RootStack H) → Fits top → Stack q s → Pushed q (push_root s q (value g q))
  push_root-Pushed _ _ fits at_top = inl (push_root-empty top (value g top), refl)
  push_root-Pushed _ _ fits (from_left p s pos st) =
      subst (Pushed (left_of p)) (sym (push_root-left p s (value g (left_of p))))
        (inr (right_of p, refl, refl, from_right p s pos st))
  push_root-Pushed _ _ fits (from_right p s pos st) =
      subst (Pushed (right_of p))
        (sym (push_root-right p ((left_of p, value g (left_of p)) ∷ s) (value g (right_of p))))
        (push_right-Pushed (right_of p) ((left_of p, value g (left_of p)) ∷ s) fits
          (from_right p s pos st))

module _ {ℓ} {H : Type ℓ} ⦃h : Hashable H⦄ where
  -- Padding stops at the level.
  pad_done :
      (fuel : ℕ) (level : Level) (a : Address) (v : H)
      → level ≤ a.level
      → pad fuel level a v ≡ (a, v)
  unfolding pad
  pad_done zero level a v le = refl
  pad_done (suc fuel) level a v le = elim-false (le→ltb a.level level le) _ _

  pad_step :
      (p : Address) (level : Level) (v : H)
      → p.level < 64
      → 0 < p.level
      → p.level ≤ level
      → pad (level - (p.level - 1)) level (left_of p) v
        ≡ pad (level - p.level) level p (h.combine (p.level - 1) v (empty_root (p.level - 1)))
  unfolding pad
  pad_step p level v lt pos le =
      let fuel : level - (p.level - 1) ≡ suc (level - p.level) = omega arith in
      ap (λ k. pad k level (left_of p) v) fuel
      ∙ elim-true (lt→ltb (p.level - 1) level (omega arith)) _ _
      ∙ ap
          (λ a.
            pad (level - p.level) level a (h.combine (p.level - 1) v (empty_root (p.level - 1))))
          (parent-left p lt pos)

  -- What `stack_root` computes from the node at the top of the stack.
  abbrev top_of : Level → RootStack H → Address → H → Address × H
  top_of level s a v = let all = collapse s a v in pad (level - all.0.level) level all.0 all.1

  top_of_step :
      (p : Address) (level : Level) (s : RootStack H) (v : H)
      → p.level < 64
      → 0 < p.level
      → p.level ≤ level
      → HeadAbove p.level s
      → top_of level s (left_of p) v
        ≡ top_of level s p (h.combine (p.level - 1) v (empty_root (p.level - 1)))
  unfolding collapse HeadAbove
  top_of_step p level [] v lt pos le above = pad_step p level v lt pos le
  top_of_step p level ((a, w) ∷ s) v lt pos le (up, up') =
      ap
        (λ (raised : Address × H).
          let all = collapse s (parent_addr raised.0) (h.combine raised.0.level w raised.1) in
          pad (level - all.0.level) level all.0 all.1)
        (pad_step p a.level v lt pos up)

module _ {ℓ} {H : Type ℓ} ⦃h : Hashable H⦄ (f : ℕ → H) (truncate_at : ℕ) (top : Address) where
  abbrev g : ℕ → H
  g = truncated truncate_at f

  top_of-value :
      (q : Address) (s : RootStack H)
      → Fits top
      → truncate_at ≤ position_range_end q
      → Stack g top q s
      → top_of top.level s q (value g q) ≡ (top, value g top)
  unfolding collapse
  top_of-value _ _ fits le at_top =
      pad_done (top.level - top.level) top.level top (value g top) (omega arith)
  top_of-value _ _ fits le (from_left p s pos st) =
      let fp = Stack-Fits g top p s fits st in
      top_of_step p top.level s (value g (left_of p)) fp.levels pos (Stack-level g top p s st)
        (Stack-HeadAbove g top p s fits st)
      ∙ ap (top_of top.level s p) (
          ap (h.combine (p.level - 1) (value g (left_of p))) (
            sym (
              value-truncated_right f (right_of p) truncate_at (right-Fits p fp pos)
                (omega (arith, end-left p fp pos))))
          ∙ value_parent g p pos)
      ∙ top_of-value p s fits (omega (arith, left_within p fp pos)) st
  top_of-value _ _ fits le (from_right p s pos st) =
      let fp = Stack-Fits g top p s fits st in
      ap
        (λ (raised : Address × H).
          top_of top.level s (parent_addr raised.0)
            (h.combine raised.0.level (value g (left_of p)) raised.1))
        (pad_done ((p.level - 1) - (p.level - 1)) (p.level - 1) (right_of p) (value g (right_of p))
          (omega arith))
      ∙ ap₂ (top_of top.level s) (parent-right p fp.levels pos) (value_parent g p pos)
      ∙ top_of-value p s fits (omega (arith, end-right p fp pos)) st

  pub stack_root-value :
      (n : Address) (s : RootStack H)
      → Fits top
      → truncate_at ≤ position_range_start n
      → Stack g top n s
      → stack_root top.level s ≡ value g top
  unfolding stack_root
  stack_root-value _ _ fits le at_top = sym (value-truncated_right f top truncate_at fits le)
  stack_root-value _ _ fits le (from_left p s pos st) =
      stack_root-value p s fits (rw (sym (start-left p (Stack-Fits g top p s fits st) pos)) le) st
  stack_root-value _ _ fits le (from_right p s pos st) =
      ap (λ (r : Address × H). r.1)
        (top_of-value (left_of p) s fits (rw (end-left p (Stack-Fits g top p s fits st) pos) le)
          (from_left p s pos st))

  pub stack_root-full : stack_root top.level ((top, value g top) ∷ []) ≡ value g top
  unfolding stack_root collapse
  stack_root-full =
      ap (λ (r : Address × H). r.1)
        (pad_done (top.level - top.level) top.level top (value g top) (omega arith))
