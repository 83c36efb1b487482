-- ===== src/OrderedMap/Ext.antt =====
-- Ordered maps as what they hold: two with the same entries, and one filled from another.
use incrementalmerkletree.Prelude.{
  some, none, some_ne_none, some_injective, [], ◌∷◌, ◌≡◌, refl, sym, ap, ap₂, ◌∙◌, inl, inr, subst,
  Option-cases,
}
use incrementalmerkletree.OrderedMap.{Ord, OrderedMap, get, insert, insert_all, AllAbove, IsSorted}
use incrementalmerkletree.OrderedMap.Laws.{
  below, same, above, compared, compare_refl, compare_lt_ne, compare_gt_ne, get-lt, get-eq, get-gt,
  get-nil, get-AllAbove, AllAbove-trans, insert-IsSorted, get-insert_same, get-insert_other,
}

module _ {ℓ κ} {K : Type ℓ} {V : Type κ} ⦃o : Ord K⦄ where
  -- The rests of two lists that start with the same key answer alike.
  tails :
      (k : K) (v w : V) (m n : OrderedMap K V)
      → AllAbove k m
      → AllAbove k n
      → ((x : K) → get x ((k, v) ∷ m) ≡ get x ((k, w) ∷ n))
      → (x : K) → get x m ≡ get x n
  tails k v w m n hm hn h x = elim (compared x k) [
    | below e _ ↦
        get-AllAbove x m (AllAbove-trans m e hm) ∙ sym (get-AllAbove x n (AllAbove-trans n e hn))
    | same p _ _ ↦
        ap (λ y. get y m) p
        ∙ get-AllAbove k m hm
        ∙ sym (get-AllAbove k n hn)
        ∙ ap (λ y. get y n) (sym p)
    | above e _ ↦ sym (get-gt v m e) ∙ h x ∙ get-gt w n e
  ]

  -- Lists in ascending order of their keys that answer every lookup alike are equal.
  pub get_ext :
      (m n : OrderedMap K V) → IsSorted m → IsSorted n → ((k : K) → get k m ≡ get k n) → m ≡ n
  unfolding IsSorted
  get_ext [] [] s t h = refl
  get_ext [] ((j, w) ∷ n) s t h =
      absurd (some_ne_none (sym (get-eq w n (compare_refl j)) ∙ sym (h j) ∙ get-nil j))
  get_ext ((k, v) ∷ m) [] s t h =
      absurd (some_ne_none (sym (get-eq v m (compare_refl k)) ∙ h k ∙ get-nil k))
  get_ext ((k, v) ∷ m) ((j, w) ∷ n) (hm, s) (hn, t) h = elim (compared k j) [
    | below e _ ↦ absurd (some_ne_none (sym (get-eq v m (compare_refl k)) ∙ h k ∙ get-lt w n e))
    | above _ e ↦
        absurd (some_ne_none (sym (get-eq w n (compare_refl j)) ∙ sym (h j) ∙ get-lt v m e))
    | same p e _ ↦
        ap₂ (λ x y. x ∷ y)
          (ap₂ (λ x y. (x, y)) p
            (some_injective (sym (get-eq v m (compare_refl k)) ∙ h k ∙ get-eq w n e)))
          (get_ext m n s t (
            tails k v w m n hm (subst (λ i. AllAbove i n) (sym p) hn)
              (subst (λ i. (x : K) → get x ((k, v) ∷ m) ≡ get x ((i, w) ∷ n)) (sym p) h)))
  ]

  pub get-insert_all-none :
      (k : K) (es m : OrderedMap K V)
      → IsSorted es
      → get k es ≡ none
      → get k (insert_all es m) ≡ get k m
  unfolding IsSorted insert_all
  get-insert_all-none k [] m s e = refl
  get-insert_all-none k ((j, w) ∷ es) m (h, s) e = elim (compared k j) [
    | below l _ ↦
        get-insert_all-none k es (insert j w m) s (get-AllAbove k es (AllAbove-trans es l h))
        ∙ get-insert_other w m (compare_lt_ne l)
    | same _ l _ ↦ absurd (some_ne_none (sym (get-eq w es l) ∙ e))
    | above l _ ↦
        get-insert_all-none k es (insert j w m) s (sym (get-gt w es l) ∙ e)
        ∙ get-insert_other w m (compare_gt_ne l)
  ]

  pub get-insert_all-some :
      (k : K) {v : V} (es m : OrderedMap K V)
      → IsSorted es
      → get k es ≡ some v
      → get k (insert_all es m) ≡ some v
  unfolding IsSorted insert_all
  get-insert_all-some k [] m s e = absurd (some_ne_none (sym e ∙ get-nil k))
  get-insert_all-some k {v = v} ((j, w) ∷ es) m (h, s) e = elim (compared k j) [
    | below l _ ↦ absurd (some_ne_none (sym e ∙ get-lt w es l))
    | same p l _ ↦
        get-insert_all-none k es (insert j w m) s
          (get-AllAbove k es (subst (λ i. AllAbove i es) (sym p) h))
        ∙ ap (λ i. get k (insert i w m)) (sym p)
        ∙ get-insert_same k w m
        ∙ sym (get-eq w es l)
        ∙ e
    | above l _ ↦ get-insert_all-some k es (insert j w m) s (sym (get-gt w es l) ∙ e)
  ]

  pub insert_all-IsSorted : (es m : OrderedMap K V) → IsSorted m → IsSorted (insert_all es m)
  unfolding insert_all
  insert_all-IsSorted [] m s = s
  insert_all-IsSorted ((k, v) ∷ es) m s =
      insert_all-IsSorted es (insert k v m) (insert-IsSorted k v m s)

  -- Every key of the first map is one of the second.
  unfoldable pub HasKeysOf : OrderedMap K V → OrderedMap K V → Type (ℓ ⊔ κ)
  HasKeysOf es m = (k : K) → get k es ≡ none → get k m ≡ none

  -- A map whose keys are all among those of the inserted entries ends up as these entries.
  pub insert_all-HasKeysOf :
      (es m : OrderedMap K V) → IsSorted es → IsSorted m → HasKeysOf es m → insert_all es m ≡ es
  unfolding HasKeysOf
  insert_all-HasKeysOf es m s t h =
      get_ext (insert_all es m) es (insert_all-IsSorted es m t) s (λ k.
        elim (Option-cases (get k es)) [
          | inl e ↦ get-insert_all-none k es m s e ∙ h k e ∙ sym e
          | inr (v, e) ↦ get-insert_all-some k es m s e ∙ sym e
        ])
