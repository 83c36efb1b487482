-- ===== src/ShardTree/Store/Effect.antt =====
-- Calls that read and change a store: what they return, or their error, with the store that they
-- leave, which an error does not take back. `none` is a panic.
use incrementalmerkletree.Prelude.{
  Option, some, none, Result, ok, err, ◌≡◌, ap, List, [], ◌∷◌, Bool, true, false,
}

abbrev pub Effect {ℓ κ μ} : Type ℓ → Type κ → Type μ → Type (ℓ ⊔ κ ⊔ μ)
Effect S E A = S → Option (Result E A × S)

module _ {ℓ κ μ} {S : Type ℓ} {E : Type κ} {A : Type μ} where
  abbrev pub return : A → Effect S E A
  return a s = some (ok a, s)

  abbrev pub fail : E → Effect S E A
  fail e s = some (err e, s)

  -- A call with `&self`.
  abbrev pub read : (S → Result E A) → Effect S E A
  read f s = some (f s, s)

  -- A value without which the code panics.
  abbrev pub expect : Option A → Effect S E A
  expect none s = none
  expect (some a) s = some (ok a, s)

  -- A computation that may fail or panic, apart from the store.
  abbrev pub lift : Option (Result E A) → Effect S E A
  lift none s = none
  lift (some r) s = some (r, s)

-- `assert!`.
abbrev pub assert {ℓ κ} : {S : Type ℓ} {E : Type κ} → Bool → Effect S E (Unit {0})
assert true s = some (ok tt, s)
assert false s = none

module _ {ℓ κ μ ν} {S : Type ℓ} {E : Type κ} {A : Type μ} {B : Type ν} where
  abbrev pub continue : (A → Effect S E B) → Option (Result E A × S) → Option (Result E B × S)
  continue f none = none
  continue f (some (err e, s)) = some (err e, s)
  continue f (some (ok a, s)) = f a s

  infixl 5 ◌>>=◌
  abbrev pub ◌>>=◌ : Effect S E A → (A → Effect S E B) → Effect S E B
  ◌>>=◌ m f s = continue f (m s)

  -- A chain goes on from the result and the store of its first step.
  pub >>=-ok :
      (m : Effect S E A) (s : S) {t : S} {a : A}
      → m s ≡ some (ok a, t)
      → (f : A → Effect S E B) → (m >>= f) s ≡ f a t
  >>=-ok m s e f = ap (continue f) e

  -- A chain ends with the error of its first step.
  pub >>=-err :
      (m : Effect S E A) (s : S) {t : S} {x : E}
      → m s ≡ some (err x, t)
      → (f : A → Effect S E B) → (m >>= f) s ≡ some (err x, t)
  >>=-err m s e f = ap (continue f) e

abbrev pub rename {ℓ κ μ ν} :
    {E : Type κ} {F : Type μ} {A : Type ν} {S : Type ℓ}
    → (E → F)
    → Option (Result E A × S)
    → Option (Result F A × S)
rename f none = none
rename f (some (ok a, s)) = some (ok a, s)
rename f (some (err e, s)) = some (err (f e), s)

-- `map_err`.
abbrev pub with_error {ℓ κ μ ν} :
    {E : Type κ} {F : Type μ} {A : Type ν} {S : Type ℓ} → (E → F) → Effect S E A → Effect S F A
with_error f m s = rename f (m s)

-- A call of the store that answers, under another error type.
pub rename-ok {ℓ κ μ ν} :
    {E : Type κ} {F : Type μ} {A : Type ν} {S : Type ℓ} (f : E → F) (g : S → Result E A) (s : S)
    {a : A}
    → g s ≡ ok a
    → rename f (read g s) ≡ some (ok a, s)
rename-ok f g s e = ap (λ r. rename f (some (r, s))) e

-- The store at the end of a computation that takes it over.
abbrev pub final {ℓ κ μ} :
    {S : Type ℓ} {E : Type κ} {A : Type μ} → Option (Result E A × S) → Option (Result E S)
final none = none
final (some (ok a, s)) = some (ok s)
final (some (err e, s)) = some (err e)

-- A loop over a list whose body may fail.
abbrev pub for_each {ℓ κ μ} :
    {S : Type ℓ} {E : Type κ} {A : Type μ}
    → (A → Effect S E (Unit {0}))
    → List A
    → Effect S E (Unit {0})
for_each f [] = return tt
for_each f (x ∷ xs) = f x >>= λ _. for_each f xs
