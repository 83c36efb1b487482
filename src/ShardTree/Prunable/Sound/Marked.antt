-- ===== src/ShardTree/Prunable/Sound/Marked.antt =====
-- The marked leaves of a prunable tree, and what `unite` makes of them.
use incrementalmerkletree.Prelude.{
  ℕ, ◌+◌, ◌-◌, ◌*◌, ◌/◌, ◌%◌, ◌≤◌, ◌<◌, ◌≡◌, ◌⊎◌, ◌↔◌, ◌^◌, ap, refl, arith, Option, some, none,
  inl, inr, max, true, Bool-cases, bit_and, bit_or, ◌&&◌, ◌==◌,
}
use Prim.Native.Nat.{min}
use incrementalmerkletree.Prelude.Bits.{bit_and_step, bit_or_step, bit_and-zero}
use incrementalmerkletree.Address.{Address, position_range_start, position_range_end}
use incrementalmerkletree.Address.Shape.{Fits, start_eq, end_eq}
use incrementalmerkletree.Address.Family.{
  left_of, right_of, left-Fits, right-Fits, start-left, end-right, left_within, right_within,
}
use incrementalmerkletree.Hashable.{Hashable}
use incrementalmerkletree.ShardTree.Tree.{parent, leaf, nil, reannotate_root}
use incrementalmerkletree.ShardTree.Flags.{
  RetentionFlags, is_marked, difference, ephemeral, marked, reference,
}
use incrementalmerkletree.ShardTree.Prunable.{PrunableTree, unite}
use incrementalmerkletree.ShardTree.Prunable.Sound.{IsSound}

mark_and : (a b : ℕ) → bit_and a b / 2 % 2 ≡ min (a / 2 % 2) (b / 2 % 2)
mark_and a b = omega (arith, bit_and_step a b, bit_and_step (a / 2) (b / 2))

mark_or : (a b : ℕ) → bit_or a b / 2 % 2 ≡ max (a / 2 % 2) (b / 2 % 2)
mark_or a b = omega (arith, bit_or_step a b, bit_or_step (a / 2) (b / 2))

is_marked_iff : (r : RetentionFlags) → (is_marked r ≡ true) ↔ (r / 2 % 2 ≡ 1)
unfolding is_marked
is_marked_iff r = ground (arith, bit_and_step r 2, bit_and_step (r / 2) 1, bit_and-zero (r / 2 / 2))

-- A leaf made of two is marked if one of them is.
pub is_marked-or :
    (a b : RetentionFlags)
    → (is_marked (bit_or a b) ≡ true) ↔ ((is_marked a ≡ true) ⊎ (is_marked b ≡ true))
is_marked-or a b =
    ground (arith, is_marked_iff (bit_or a b), is_marked_iff a, is_marked_iff b, mark_or a b)

-- The flags of a leaf that is inserted over another.
pub is_marked-over :
    (a b : RetentionFlags)
    → (is_marked (bit_or (difference (bit_or a b) reference) (bit_and (bit_and reference a) b))
        ≡ true)
      ↔ ((is_marked b ≡ true) ⊎ (is_marked a ≡ true))
unfolding difference
is_marked-over a b = ground (
  arith,
  is_marked_iff (bit_or (difference (bit_or a b) reference) (bit_and (bit_and reference a) b)),
  is_marked_iff a,
  is_marked_iff b,
  mark_or (difference (bit_or a b) reference) (bit_and (bit_and reference a) b),
  mark_or a b,
  mark_and (bit_or a b) 3,
  mark_and (bit_and reference a) b,
  mark_and reference a,
)

unmarked :
    (r : RetentionFlags)
    → (bit_and r (bit_or marked reference) == ephemeral) ≡ true
    → is_marked r ≡ true
    → ⊥
unmarked r e m = absurd (ground (arith, is_marked_iff r, mark_and r 6))

-- What holds of a tree in terms of what holds of its parts.
module _ {A B M : Type 0} where
  pub only_left : (B → ⊥) → M ↔ A → M ↔ (A ⊎ B)
  only_left never (to, from) =
      ((λ m. inl (to m)), (λ c. elim c [ inl x ↦ from x | inr y ↦ absurd (never y) ]))

  pub only_right : (A → ⊥) → M ↔ B → M ↔ (A ⊎ B)
  only_right never (to, from) =
      ((λ m. inr (to m)), (λ c. elim c [ inl x ↦ absurd (never x) | inr y ↦ from y ]))

pub flip : {A B : Type 0} → A ↔ B → B ↔ A
flip (f, g) = (g, f)

pub iff_trans : {A B C : Type 0} → A ↔ B → B ↔ C → A ↔ C
iff_trans (f, g) (h, k) = ((λ a. h (f a)), (λ c. g (k c)))

pub in_left : {M L R A N : Type 0} → M ↔ (L ⊎ R) → L ↔ (A ⊎ N) → M ↔ ((A ⊎ R) ⊎ N)
in_left whole part = ground arith

pub in_right : {M L R B N : Type 0} → M ↔ (L ⊎ R) → R ↔ (B ⊎ N) → M ↔ ((L ⊎ B) ⊎ N)
in_right whole part = ground arith

pub in_both :
    {M L R A B C D : Type 0} → M ↔ (L ⊎ R) → L ↔ (A ⊎ C) → R ↔ (B ⊎ D) → M ↔ ((A ⊎ B) ⊎ (C ⊎ D))
in_both whole left right = ground arith

module _ {ℓ} {H : Type ℓ} where
  -- The tree at the address has a marked leaf on level 0 at position `q`.
  abbrev pub HasMarked : ℕ → Address → PrunableTree H → Type 0
  HasMarked q a (parent ann l r) = HasMarked q (left_of a) l ⊎ HasMarked q (right_of a) r
  HasMarked q a (leaf (v, flags)) = (a.level ≡ 0) × (a.index ≡ q) × (is_marked flags ≡ true)
  HasMarked q a nil = ⊥

  pub reannotate_root-HasMarked :
      (q : ℕ) (a : Address) (t : PrunableTree H) (v : Option H)
      → HasMarked q a (reannotate_root t v) ↔ HasMarked q a t
  unfolding reannotate_root
  reannotate_root-HasMarked q a nil v = ((λ m. m), (λ m. m))
  reannotate_root-HasMarked q a (leaf x) v = ((λ m. m), (λ m. m))
  reannotate_root-HasMarked q a (parent ann l r) v = ((λ m. m), (λ m. m))

  -- Above level 0 no leaf is marked.
  pub leaf_above :
      (q : ℕ) (a : Address) (x : H × RetentionFlags) → 0 < a.level → HasMarked q a (leaf x) → ⊥
  leaf_above q a (v, flags) pos (level, index, m) = absurd (omega arith)

module _ {ℓ} {H : Type ℓ} ⦃h : Hashable H⦄ where
  -- Uniting two children loses no marked leaf and adds none.
  pub unite-HasMarked :
      (q : ℕ) (a : Address) (ann : Option H) (l r : PrunableTree H)
      → 0 < a.level
      → HasMarked q a (unite (a.level - 1) ann l r)
        ↔ (HasMarked q (left_of a) l ⊎ HasMarked q (right_of a) r)
  unfolding unite
  unite-HasMarked q a none nil nil pos = ((λ m. absurd m), (λ m. elim m [ inl m ↦ m | inr m ↦ m ]))
  unite-HasMarked q a (some v) nil nil pos = ((λ m. m), (λ m. m))
  unite-HasMarked q a ann (leaf (lv, lf)) (leaf (rv, rf)) pos =
      elim (Bool-cases ((lf == ephemeral) && (bit_and rf (bit_or marked reference) == ephemeral))) [
        | inl both ↦ rw both (
          (λ m. absurd (leaf_above q a (h.combine (a.level - 1) lv rv, rf) pos m)),
          none_marked both,
        )
        | inr keep ↦ rw keep ((λ m. m), (λ m. m))
      ]
    where
      none_marked :
          ((lf == ephemeral) && (bit_and rf (bit_or marked reference) == ephemeral)) ≡ true
          → HasMarked q (left_of a) (leaf (lv, lf)) ⊎ HasMarked q (right_of a) (leaf (rv, rf))
          → HasMarked q a (leaf (h.combine (a.level - 1) lv rv, rf))
      none_marked both (inl (level, index, m)) = absurd (ground (arith, is_marked_iff lf))
      none_marked both (inr (level, index, m)) = absurd (ground (arith, unmarked rf))
  unite-HasMarked q a ann l r pos = ((λ m. m), (λ m. m))

  -- A marked leaf lies in the range of the address.
  pub HasMarked-range :
      (f : ℕ → H) (q : ℕ) (a : Address) (t : PrunableTree H)
      → Fits a
      → IsSound f a t
      → HasMarked q a t
      → (position_range_start a ≤ q) × (q < position_range_end a)
  HasMarked-range f q a nil fits s m = absurd m
  HasMarked-range f q a (leaf (v, flags)) fits s (level, index, m) =
      let one : 2 ^ a.level ≡ 1 = rw level refl in
      (
        omega (arith, start_eq a fits, ap (λ (k : ℕ). a.index * k) one),
        omega (arith, end_eq a fits, ap (λ (k : ℕ). (a.index + 1) * k) one),
      )
  HasMarked-range f q a (parent ann l r) fits s (inl m) =
      let (lo, hi) = HasMarked-range f q (left_of a) l (left-Fits a fits s.0) s.2 m in
      (omega (arith, start-left a fits s.0), omega (arith, left_within a fits s.0))
  HasMarked-range f q a (parent ann l r) fits s (inr m) =
      let (lo, hi) = HasMarked-range f q (right_of a) r (right-Fits a fits s.0) s.3 m in
      (omega (arith, right_within a fits s.0), omega (arith, end-right a fits s.0))
