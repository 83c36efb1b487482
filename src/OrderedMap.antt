-- ===== src/OrderedMap.antt =====
-- `BTreeMap` and `BTreeSet` of the standard library, as the code uses them: lists of entries in
-- ascending order of their keys, one for each key.
pub mod Laws
pub mod Ext
use Prim.Native.Nat.{Ordering, compare, lt, eq, gt}
use incrementalmerkletree.Prelude.{
  ℕ, zero, suc, Option, some, none, List, [], ◌∷◌, Bool, true, false, ◌≡◌, ◌↔◌, ltb, if◌then◌else◌,
  arith, foldl,
}

-- `Ord`: a total order, given by its three-way comparison.
pub record Ord {ℓ} (K : Type ℓ) : Type ℓ where
  pub compare : K → K → Ordering
  pub compare_eq : (a b : K) → (compare a b ≡ eq) ↔ (a ≡ b)
  pub compare_flip : (a b : K) → (compare a b ≡ lt) ↔ (compare b a ≡ gt)
  pub compare_trans : (a b c : K) → compare a b ≡ lt → compare b c ≡ lt → compare a c ≡ lt

abbrev pub OrderedMap {ℓ κ} : Type ℓ → Type κ → Type (ℓ ⊔ κ)
OrderedMap K V = List (K × V)

-- A `BTreeSet` is a map to no values.
abbrev pub OrderedSet {ℓ} : Type ℓ → Type ℓ
OrderedSet K = OrderedMap K (Unit {0})

pub compare_eq_iff : (a b : ℕ) → (compare a b ≡ eq) ↔ (a ≡ b)
compare_eq_iff a b = ground arith

pub compare_flip_iff : (a b : ℕ) → (compare a b ≡ lt) ↔ (compare b a ≡ gt)
compare_flip_iff a b = ground arith

pub compare_lt_trans : (a b c : ℕ) → compare a b ≡ lt → compare b c ≡ lt → compare a c ≡ lt
compare_lt_trans a b c l m = ground arith

instance abbrev pub ℕ-Ord : Ord ℕ
ℕ-Ord = record {
  compare = compare;
  compare_eq = compare_eq_iff;
  compare_flip = compare_flip_iff;
  compare_trans = compare_lt_trans;
}

module _ {ℓ κ} {K : Type ℓ} {V : Type κ} where
  unfoldable pub last_key : OrderedMap K V → Option K
  last_key [] = none
  last_key ((k, v) ∷ []) = some k
  last_key ((k, v) ∷ (j, w) ∷ m) = last_key ((j, w) ∷ m)

  unfoldable pub first_key : OrderedMap K V → Option K
  first_key [] = none
  first_key ((k, v) ∷ m) = some k

module _ {ℓ κ} {K : Type ℓ} {V : Type κ} ⦃o : Ord K⦄ where
  unfoldable pub get : K → OrderedMap K V → Option V
  get k [] = none
  get k ((j, w) ∷ m) = elim (o.compare k j) [ lt ↦ none | eq ↦ some w | gt ↦ get k m ]

  unfoldable pub insert : K → V → OrderedMap K V → OrderedMap K V
  insert k v [] = (k, v) ∷ []
  insert k v ((j, w) ∷ m) = elim (o.compare k j) [
    | lt ↦ (k, v) ∷ (j, w) ∷ m
    | eq ↦ (k, v) ∷ m
    | gt ↦ (j, w) ∷ insert k v m
  ]

  unfoldable pub remove : K → OrderedMap K V → OrderedMap K V
  remove k [] = []
  remove k ((j, w) ∷ m) = elim (o.compare k j) [
    | lt ↦ (j, w) ∷ m
    | eq ↦ m
    | gt ↦ (j, w) ∷ remove k m
  ]

  -- `split_off` leaves the entries before the key and returns the others.
  unfoldable pub before : K → OrderedMap K V → OrderedMap K V
  before k [] = []
  before k ((j, w) ∷ m) = elim (o.compare k j) [ lt ↦ [] | eq ↦ [] | gt ↦ (j, w) ∷ before k m ]

  unfoldable pub from_key : K → OrderedMap K V → OrderedMap K V
  from_key k [] = []
  from_key k ((j, w) ∷ m) = elim (o.compare k j) [
    | lt ↦ (j, w) ∷ m
    | eq ↦ (j, w) ∷ m
    | gt ↦ from_key k m
  ]

  -- Entries inserted one after the other.
  unfoldable pub insert_all : OrderedMap K V → OrderedMap K V → OrderedMap K V
  insert_all [] m = m
  insert_all ((k, v) ∷ es) m = insert_all es (insert k v m)

  unfoldable pub AllAbove : K → OrderedMap K V → Type 0
  AllAbove k [] = Unit
  AllAbove k ((j, w) ∷ m) = (o.compare k j ≡ lt) × AllAbove k m

  unfoldable pub IsSorted : OrderedMap K V → Type 0
  unfolding AllAbove
  IsSorted [] = Unit
  IsSorted ((k, v) ∷ m) = AllAbove k m × IsSorted m
