-- ===== src/OrderedMap/Laws.antt =====
-- What the operations on ordered maps do to the entries and to their order.
use Prim.Native.Nat.{Ordering, lt, eq, gt}
use incrementalmerkletree.Prelude.{
  some, none, [], ◌∷◌, ◌≡◌, refl, sym, ap, ◌∙◌, ◌≢◌, ◌⊎◌, inl, inr, subst,
}
use incrementalmerkletree.OrderedMap.{
  Ord, OrderedMap, get, insert, remove, before, from_key, AllAbove, IsSorted,
}

pub Ordering-cases : (c : Ordering) → (c ≡ lt) ⊎ ((c ≡ eq) ⊎ (c ≡ gt))
Ordering-cases lt = inl refl
Ordering-cases eq = inr (inl refl)
Ordering-cases gt = inr (inr refl)

lt_ne_eq : lt ≢ eq
lt_ne_eq e = cc

gt_ne_eq : gt ≢ eq
gt_ne_eq e = cc

module _ {ℓ} {K : Type ℓ} ⦃o : Ord K⦄ where
  -- The three ways in which two keys stand to each other.
  pub data Compared (a b : K) : Type ℓ where
    below : o.compare a b ≡ lt → o.compare b a ≡ gt → Compared a b
    same : a ≡ b → o.compare a b ≡ eq → o.compare b a ≡ eq → Compared a b
    above : o.compare a b ≡ gt → o.compare b a ≡ lt → Compared a b

  pub compare_refl : (a : K) → o.compare a a ≡ eq
  compare_refl a = (o.compare_eq a a).1 refl

  pub compared : (a b : K) → Compared a b
  compared a b = elim (Ordering-cases (o.compare a b)) [
    | inl e ↦ below e ((o.compare_flip a b).0 e)
    | inr (inl e) ↦
        same ((o.compare_eq a b).0 e) e ((o.compare_eq b a).1 (sym ((o.compare_eq a b).0 e)))
    | inr (inr e) ↦ above e ((o.compare_flip b a).1 e)
  ]

  pub compare_lt_ne : {a b : K} → o.compare a b ≡ lt → a ≢ b
  compare_lt_ne {a = a} {b = b} e p = lt_ne_eq (sym e ∙ (o.compare_eq a b).1 p)

  pub compare_gt_ne : {a b : K} → o.compare a b ≡ gt → a ≢ b
  compare_gt_ne {a = a} {b = b} e p = gt_ne_eq (sym e ∙ (o.compare_eq a b).1 p)

module _ {ℓ κ} {K : Type ℓ} {V : Type κ} ⦃o : Ord K⦄ where
  -- Looking up in a list that starts with an entry, by how the keys compare.
  pub get-lt :
      {k j : K} (w : V) (m : OrderedMap K V) → o.compare k j ≡ lt → get k ((j, w) ∷ m) ≡ none
  unfolding get
  get-lt w m e = rw (e, get) refl

  pub get-eq :
      {k j : K} (w : V) (m : OrderedMap K V) → o.compare k j ≡ eq → get k ((j, w) ∷ m) ≡ some w
  unfolding get
  get-eq w m e = rw (e, get) refl

  pub get-gt :
      {k j : K} (w : V) (m : OrderedMap K V) → o.compare k j ≡ gt → get k ((j, w) ∷ m) ≡ get k m
  unfolding get
  get-gt w m e = rw (e, get) refl

  pub get-insert_same : (k : K) (v : V) (m : OrderedMap K V) → get k (insert k v m) ≡ some v
  unfolding insert
  get-insert_same k v [] = get-eq v [] (compare_refl k)
  get-insert_same k v ((j, w) ∷ m) = elim (compared k j) [
    | below e _ ↦ rw (e, insert) (get-eq v ((j, w) ∷ m) (compare_refl k))
    | same _ e _ ↦ rw (e, insert) (get-eq v m (compare_refl k))
    | above e _ ↦ rw (e, insert) (get-gt w (insert k v m) e ∙ get-insert_same k v m)
  ]

  pub get-nil : (k : K) → get {V = V} k [] ≡ none
  unfolding get
  get-nil k = refl

  -- An entry of another key is passed over, where nothing before it is missed.
  get-cons_other :
      {k j : K} (w : V) (m : OrderedMap K V)
      → k ≢ j
      → (o.compare k j ≡ lt → get k m ≡ none)
      → get k ((j, w) ∷ m) ≡ get k m
  get-cons_other {k = k} {j = j} w m ne missed = elim (compared k j) [
    | below e _ ↦ get-lt w m e ∙ sym (missed e)
    | same p _ _ ↦ absurd (ne p)
    | above e _ ↦ get-gt w m e
  ]

  get-cons_value :
      {k i j : K} (v w : V) (m : OrderedMap K V)
      → k ≢ i
      → i ≡ j
      → get k ((i, v) ∷ m) ≡ get k ((j, w) ∷ m)
  get-cons_value {k = k} {i = i} v w m ne p = elim (compared k i) [
    | below e _ ↦ get-lt v m e ∙ sym (get-lt w m (ap (o.compare k) (sym p) ∙ e))
    | same q _ _ ↦ absurd (ne q)
    | above e _ ↦ get-gt v m e ∙ sym (get-gt w m (ap (o.compare k) (sym p) ∙ e))
  ]

  -- Two lists that start alike are read alike when their rests are.
  get-cons_rest :
      (k j : K) (w : V) (m n : OrderedMap K V)
      → (o.compare k j ≡ gt → get k m ≡ get k n)
      → get k ((j, w) ∷ m) ≡ get k ((j, w) ∷ n)
  get-cons_rest k j w m n rest = elim (compared k j) [
    | below e _ ↦ get-lt w m e ∙ sym (get-lt w n e)
    | same _ e _ ↦ get-eq w m e ∙ sym (get-eq w n e)
    | above e _ ↦ get-gt w m e ∙ rest e ∙ sym (get-gt w n e)
  ]

  pub get-insert_other :
      {k j : K} (v : V) (m : OrderedMap K V) → k ≢ j → get k (insert j v m) ≡ get k m
  unfolding insert
  get-insert_other v [] ne = get-cons_other v [] ne (λ _. get-nil _)
  get-insert_other {k = k} {j = j} v ((i, w) ∷ m) ne = elim (compared j i) [
    | below e _ ↦
        rw (e, insert)
          (get-cons_other v ((i, w) ∷ m) ne (λ l. get-lt w m (o.compare_trans k j i l e)))
    | same p e _ ↦ rw (e, insert) (get-cons_value v w m ne p)
    | above e _ ↦
        rw (e, insert) (get-cons_rest k i w (insert j v m) m (λ _. get-insert_other v m ne))
  ]

  pub AllAbove-trans :
      {a b : K} (m : OrderedMap K V) → o.compare a b ≡ lt → AllAbove b m → AllAbove a m
  unfolding AllAbove
  AllAbove-trans [] l h = tt
  AllAbove-trans {a = a} {b = b} ((j, w) ∷ m) l (h, hs) =
      (o.compare_trans a b j l h, AllAbove-trans m l hs)

  pub get-AllAbove : (k : K) (m : OrderedMap K V) → AllAbove k m → get k m ≡ none
  unfolding AllAbove
  get-AllAbove k [] h = get-nil k
  get-AllAbove k ((j, w) ∷ m) (h, hs) = get-lt w m h

  insert-AllAbove :
      {a k : K} (v : V) (m : OrderedMap K V)
      → o.compare a k ≡ lt
      → AllAbove a m
      → AllAbove a (insert k v m)
  unfolding AllAbove insert
  insert-AllAbove v [] l h = (l, tt)
  insert-AllAbove {k = k} v ((j, w) ∷ m) l (h, hs) = elim (compared k j) [
    | below e _ ↦ rw (e, insert) (l, (h, hs))
    | same _ e _ ↦ rw (e, insert) (l, hs)
    | above e _ ↦ rw (e, insert) (h, insert-AllAbove v m l hs)
  ]

  pub insert-IsSorted : (k : K) (v : V) (m : OrderedMap K V) → IsSorted m → IsSorted (insert k v m)
  unfolding AllAbove IsSorted insert
  insert-IsSorted k v [] s = (tt, tt)
  insert-IsSorted k v ((j, w) ∷ m) (h, s) = elim (compared k j) [
    | below e _ ↦ rw (e, insert) ((e, AllAbove-trans m e h), (h, s))
    | same p e _ ↦ rw (e, insert) (subst (λ i. AllAbove i m) (sym p) h, s)
    | above e l ↦ rw (e, insert) (insert-AllAbove v m l h, insert-IsSorted k v m s)
  ]

  remove-AllAbove : (a k : K) (m : OrderedMap K V) → AllAbove a m → AllAbove a (remove k m)
  unfolding AllAbove remove
  remove-AllAbove a k [] h = tt
  remove-AllAbove a k ((j, w) ∷ m) (h, hs) = elim (compared k j) [
    | below e _ ↦ rw (e, remove) (h, hs)
    | same _ e _ ↦ rw (e, remove) hs
    | above e _ ↦ rw (e, remove) (h, remove-AllAbove a k m hs)
  ]

  pub remove-IsSorted : (k : K) (m : OrderedMap K V) → IsSorted m → IsSorted (remove k m)
  unfolding IsSorted remove
  remove-IsSorted k [] s = tt
  remove-IsSorted k ((j, w) ∷ m) (h, s) = elim (compared k j) [
    | below e _ ↦ rw (e, remove) (h, s)
    | same _ e _ ↦ rw (e, remove) s
    | above e _ ↦ rw (e, remove) (remove-AllAbove j k m h, remove-IsSorted k m s)
  ]

  before-AllAbove : (a k : K) (m : OrderedMap K V) → AllAbove a m → AllAbove a (before k m)
  unfolding AllAbove before
  before-AllAbove a k [] h = tt
  before-AllAbove a k ((j, w) ∷ m) (h, hs) = elim (compared k j) [
    | below e _ ↦ rw (e, before) tt
    | same _ e _ ↦ rw (e, before) tt
    | above e _ ↦ rw (e, before) (h, before-AllAbove a k m hs)
  ]

  pub before-IsSorted : (k : K) (m : OrderedMap K V) → IsSorted m → IsSorted (before k m)
  unfolding IsSorted before
  before-IsSorted k [] s = tt
  before-IsSorted k ((j, w) ∷ m) (h, s) = elim (compared k j) [
    | below e _ ↦ rw (e, before) tt
    | same _ e _ ↦ rw (e, before) tt
    | above e _ ↦ rw (e, before) (before-AllAbove j k m h, before-IsSorted k m s)
  ]

  pub get-remove_other :
      {k j : K} (m : OrderedMap K V) → IsSorted m → k ≢ j → get k (remove j m) ≡ get k m
  unfolding IsSorted remove
  get-remove_other [] s ne = refl
  get-remove_other {k = k} {j = j} ((i, w) ∷ m) (h, s) ne = elim (compared j i) [
    | below e _ ↦ rw (e, remove) refl
    | same p e _ ↦
        rw (e, remove)
          (sym (
            get-cons_other w m (λ q. ne (q ∙ sym p))
              (λ l. get-AllAbove k m (AllAbove-trans m l h))))
    | above e _ ↦ rw (e, remove) (get-cons_rest k i w (remove j m) m (λ _. get-remove_other m s ne))
  ]

  pub get-remove_same : (k : K) (m : OrderedMap K V) → IsSorted m → get k (remove k m) ≡ none
  unfolding IsSorted remove
  get-remove_same k [] s = get-nil k
  get-remove_same k ((i, w) ∷ m) (h, s) = elim (compared k i) [
    | below e _ ↦ rw (e, remove) (get-lt w m e)
    | same p e _ ↦ rw (e, remove) (get-AllAbove k m (subst (λ x. AllAbove x m) (sym p) h))
    | above e _ ↦ rw (e, remove) (get-gt w (remove k m) e ∙ get-remove_same k m s)
  ]

  -- The entries before a key, and those from it on.
  pub get-before-lt :
      {x k : K} (m : OrderedMap K V) → o.compare x k ≡ lt → get x (before k m) ≡ get x m
  unfolding before
  get-before-lt [] l = refl
  get-before-lt {x = x} {k = k} ((j, w) ∷ m) l = elim (compared k j) [
    | below e _ ↦ rw (e, before) (get-nil x ∙ sym (get-lt w m (o.compare_trans x k j l e)))
    | same p e _ ↦ rw (e, before) (get-nil x ∙ sym (get-lt w m (ap (o.compare x) (sym p) ∙ l)))
    | above e _ ↦ rw (e, before) (get-cons_rest x j w (before k m) m (λ _. get-before-lt m l))
  ]

  pub get-before_ge :
      {x k : K} (m : OrderedMap K V) → (o.compare k x ≡ lt) ⊎ (k ≡ x) → get x (before k m) ≡ none
  unfolding before
  get-before_ge [] l = get-nil _
  get-before_ge {x = x} {k = k} ((j, w) ∷ m) l = elim (compared k j) [
    | below e _ ↦ rw (e, before) (get-nil x)
    | same p e _ ↦ rw (e, before) (get-nil x)
    | above e l' ↦ rw (e, before) (get-gt w (before k m) (later l' l) ∙ get-before_ge m l)
  ]
    where
      later : o.compare j k ≡ lt → (o.compare k x ≡ lt) ⊎ (k ≡ x) → o.compare x j ≡ gt
      later a (inl b) = (o.compare_flip j x).0 (o.compare_trans j k x a b)
      later a (inr p) = (o.compare_flip j x).0 (ap (o.compare j) (sym p) ∙ a)

  pub get-from_key : (k : K) (m : OrderedMap K V) → get k (from_key k m) ≡ get k m
  unfolding from_key
  get-from_key k [] = refl
  get-from_key k ((j, w) ∷ m) = elim (compared k j) [
    | below e _ ↦ rw (e, from_key) refl
    | same p e _ ↦ rw (e, from_key) refl
    | above e _ ↦ rw (e, from_key) (get-from_key k m ∙ sym (get-gt w m e))
  ]
