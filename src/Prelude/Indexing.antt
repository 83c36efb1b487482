-- ===== src/Prelude/Indexing.antt =====
-- Lists read and written by index.
use Prim.Native.Nat.{ℕ, zero, suc, ◌+◌, ◌<◌, ◌≤◌}
use mathlib.Core.Path.{◌≡◌, refl, ap, ◌∙◌}
use mathlib.Core.Logic.{◌≢◌}
use mathlib.Core.List.{List, [], ◌∷◌, ◌++◌}
use mathlib.Core.Option.{none, some}
use native.Mathlib.Omega.{arith}
use incrementalmerkletree.Prelude.Lists.{length, get_elem?, set, take}

pub suc-add : (a b : ℕ) → suc a + b ≡ suc (a + b)
suc-add a b = omega arith

pub zero-add : (a : ℕ) → 0 + a ≡ a
zero-add a = omega arith

pub add-zero : (a : ℕ) → a ≡ a + 0
add-zero a = omega arith

pub suc-add-suc : (a b : ℕ) → suc a + b ≡ a + suc b
suc-add-suc a b = omega arith

module _ {ℓ} {A : Type ℓ} where
  pub length-set : (xs : List A) (i : ℕ) (x : A) → length (set xs i x) ≡ length xs
  length-set [] i x = refl
  length-set (y ∷ xs) zero x = refl
  length-set (y ∷ xs) (suc i) x = ap suc (length-set xs i x)

  pub get_elem?-set_same :
      (xs : List A) (i : ℕ) (x : A) → i < length xs → get_elem? (set xs i x) i ≡ some x
  get_elem?-set_same [] i x h = absurd (omega arith)
  get_elem?-set_same (y ∷ xs) zero x h = refl
  get_elem?-set_same (y ∷ xs) (suc i) x h = get_elem?-set_same xs i x (omega arith)

  pub get_elem?-set_other :
      (xs : List A) (i j : ℕ) (x : A) → i ≢ j → get_elem? (set xs i x) j ≡ get_elem? xs j
  get_elem?-set_other [] i j x ne = refl
  get_elem?-set_other (y ∷ xs) zero zero x ne = absurd (ne refl)
  get_elem?-set_other (y ∷ xs) zero (suc j) x ne = refl
  get_elem?-set_other (y ∷ xs) (suc i) zero x ne = refl
  get_elem?-set_other (y ∷ xs) (suc i) (suc j) x ne =
      get_elem?-set_other xs i j x (λ e. ne (ap suc e))

  pub get_elem?-append_lt :
      (xs ys : List A) (i : ℕ) → i < length xs → get_elem? (xs ++ ys) i ≡ get_elem? xs i
  get_elem?-append_lt [] ys i h = absurd (omega arith)
  get_elem?-append_lt (x ∷ xs) ys zero h = refl
  get_elem?-append_lt (x ∷ xs) ys (suc i) h = get_elem?-append_lt xs ys i (omega arith)

  pub get_elem?-append_ge :
      (xs ys : List A) (k : ℕ) → get_elem? (xs ++ ys) (length xs + k) ≡ get_elem? ys k
  get_elem?-append_ge [] ys k = ap (get_elem? ys) (omega arith)
  get_elem?-append_ge (x ∷ xs) ys k =
      ap (get_elem? (x ∷ (xs ++ ys))) (suc-add (length xs) k) ∙ get_elem?-append_ge xs ys k

  pub get_elem?-length : (xs : List A) (k : ℕ) → length xs ≤ k → get_elem? xs k ≡ none
  get_elem?-length [] k h = refl
  get_elem?-length (x ∷ xs) zero h = absurd (omega arith)
  get_elem?-length (x ∷ xs) (suc k) h = get_elem?-length xs k (omega arith)

  pub length-take : (n : ℕ) (xs : List A) → length (take n xs) ≤ length xs
  length-take zero xs = omega arith
  length-take (suc n) [] = omega arith
  length-take (suc n) (x ∷ xs) = omega (arith, length-take n xs)
