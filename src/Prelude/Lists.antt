-- ===== src/Prelude/Lists.antt =====
-- Lists measured and indexed by native numbers, under the library's names, and chains of `Option`.
use Prim.Native.Nat.{ℕ, zero, suc, ◌+◌}
use mathlib.Core.Path.{◌≡◌, refl, ap}
use mathlib.Core.Logic.{◌≢◌}
use mathlib.Core.List.{List, [], ◌∷◌, ◌++◌}
use mathlib.Core.Bool.{Bool}
use mathlib.Core.Option.{Option, none, some}
use native.Mathlib.Omega.{arith}
use incrementalmerkletree.Prelude.Tests.{if◌then◌else◌}

module _ {ℓ} {A : Type ℓ} where
  abbrev pub length : List A → ℕ
  length [] = 0
  length (x ∷ xs) = suc (length xs)

  abbrev pub get_elem? : List A → ℕ → Option A
  get_elem? [] i = none
  get_elem? (x ∷ xs) zero = some x
  get_elem? (x ∷ xs) (suc i) = get_elem? xs i

  abbrev pub get_or : List A → ℕ → A → A
  get_or [] i d = d
  get_or (x ∷ xs) zero d = x
  get_or (x ∷ xs) (suc i) d = get_or xs i d

  abbrev pub set : List A → ℕ → A → List A
  set [] i v = []
  set (x ∷ xs) zero v = v ∷ xs
  set (x ∷ xs) (suc i) v = x ∷ set xs i v

  abbrev pub take : ℕ → List A → List A
  take zero xs = []
  take (suc n) [] = []
  take (suc n) (x ∷ xs) = x ∷ take n xs

  abbrev pub drop : ℕ → List A → List A
  drop zero xs = xs
  drop (suc n) [] = []
  drop (suc n) (x ∷ xs) = drop n xs

  abbrev pub filter : (A → Bool) → List A → List A
  filter p [] = []
  filter p (x ∷ xs) = let rest = filter p xs in if p x then x ∷ rest else rest

  abbrev pub is_empty : List A → Bool
  is_empty [] = Bool.true
  is_empty (x ∷ xs) = Bool.false

  -- The elements present in a list of optional ones.
  abbrev pub flatten_options : List (Option A) → List A
  flatten_options [] = []
  flatten_options (none ∷ xs) = flatten_options xs
  flatten_options (some x ∷ xs) = x ∷ flatten_options xs

  abbrev pub reverse : List A → List A
  reverse [] = []
  reverse (x ∷ xs) = reverse xs ++ (x ∷ [])

  pub length-append : (xs ys : List A) → length (xs ++ ys) ≡ length xs + length ys
  length-append [] ys = omega arith
  length-append (x ∷ xs) ys = omega (arith, length-append xs ys)

module _ {ℓ} {A : Type ℓ} where
  -- Where `drop` shows a head, indexing finds it.
  pub get_elem?-drop :
      (i : ℕ) (xs : List A) {y : A} {ys : List A} → drop i xs ≡ y ∷ ys → get_elem? xs i ≡ some y
  get_elem?-drop zero [] h = cc
  get_elem?-drop zero (x ∷ xs) h = cc
  get_elem?-drop (suc i) [] h = cc
  get_elem?-drop (suc i) (x ∷ xs) h = get_elem?-drop i xs h

  pub drop-suc :
      (i : ℕ) (xs : List A) {y : A} {ys : List A} → drop i xs ≡ y ∷ ys → drop (suc i) xs ≡ ys
  drop-suc zero [] h = cc
  drop-suc zero (x ∷ xs) h = cc
  drop-suc (suc i) [] h = cc
  drop-suc (suc i) (x ∷ xs) h = drop-suc i xs h

-- Chains of steps that may fail: a failure is a panic of the source, or its `None`.
infixl 5 ◌>>=◌
abbrev pub ◌>>=◌ {ℓ κ} : {A : Type ℓ} {B : Type κ} → Option A → (A → Option B) → Option B
none >>= f = none
some a >>= f = f a

-- A chain goes on from the result of its first step.
pub >>=-some {ℓ κ} :
    {A : Type ℓ} {B : Type κ} {m : Option A} {a : A}
    → m ≡ some a
    → (f : A → Option B) → (m >>= f) ≡ f a
>>=-some e f = ap (λ o. o >>= f) e

-- `map` under an optional result.
abbrev pub fmap {ℓ κ} : {A : Type ℓ} {B : Type κ} → (A → B) → Option A → Option B
fmap f none = none
fmap f (some a) = some (f a)

abbrev pub or_else {ℓ} : {A : Type ℓ} → Option A → Option A → Option A
or_else none b = b
or_else (some a) b = some a

abbrev pub is_some {ℓ} : {A : Type ℓ} → Option A → Bool
is_some none = Bool.false
is_some (some a) = Bool.true

abbrev pub is_none {ℓ} : {A : Type ℓ} → Option A → Bool
is_none none = Bool.true
is_none (some a) = Bool.false

-- A loop over a list whose body may stop.
abbrev pub foldl_option {ℓ κ} :
    {S : Type ℓ} {A : Type κ} → (S → A → Option S) → S → List A → Option S
foldl_option f s [] = some s
foldl_option f s (x ∷ xs) = f s x >>= λ t. foldl_option f t xs

-- The results of all the calls, if none stops.
abbrev pub map_option {ℓ κ} : {A : Type ℓ} {B : Type κ} → (A → Option B) → List A → Option (List B)
map_option f [] = some []
map_option f (x ∷ xs) = f x >>= λ y. map_option f xs >>= λ ys. some (y ∷ ys)

-- `Result`, with the error first.
pub data Result {ℓ κ} (E : Type ℓ) (A : Type κ) : Type (ℓ ⊔ κ) where
  ok : A → Result E A
  err : E → Result E A

abbrev pub map_ok {ℓ κ μ} :
    {E : Type ℓ} {A : Type κ} {B : Type μ} → (A → B) → Result E A → Result E B
map_ok f (ok a) = ok (f a)
map_ok f (err e) = err e

abbrev pub and_then {ℓ κ μ} :
    {E : Type ℓ} {A : Type κ} {B : Type μ} → Result E A → (A → Result E B) → Result E B
and_then (ok a) f = f a
and_then (err e) f = err e

pub fmap_comp {ℓ κ μ} :
    {A : Type ℓ} {B : Type κ} {C : Type μ} (g : A → B) (f : B → C) (o : Option A)
    → fmap (λ a. f (g a)) o ≡ fmap f (fmap g o)
fmap_comp g f none = refl
fmap_comp g f (some a) = refl

-- The next step of a fallible computation that may also panic.
infixl 5 ◌>>?◌
abbrev pub ◌>>?◌ {ℓ κ μ} :
    {E : Type ℓ} {A : Type κ} {B : Type μ}
    → Option (Result E A)
    → (A → Option (Result E B))
    → Option (Result E B)
none >>? f = none
some (err e) >>? f = some (err e)
some (ok a) >>? f = f a

abbrev pub map_err {ℓ κ μ} :
    {E : Type ℓ} {F : Type κ} {A : Type μ} → (E → F) → Result E A → Result F A
map_err f (ok a) = ok a
map_err f (err e) = err (f e)

pub >>?-ok {ℓ κ μ} :
    {E : Type ℓ} {A : Type κ} {B : Type μ} {m : Option (Result E A)} {a : A}
    → m ≡ some (ok a)
    → (f : A → Option (Result E B)) → (m >>? f) ≡ f a
>>?-ok e f = ap (λ o. o >>? f) e

pub >>?-err {ℓ κ μ} :
    {E : Type ℓ} {A : Type κ} {B : Type μ} {m : Option (Result E A)} {e : E}
    → m ≡ some (err e)
    → (f : A → Option (Result E B)) → (m >>? f) ≡ some (err e)
>>?-err e f = ap (λ o. o >>? f) e

-- `Result::ok`.
abbrev pub to_option {ℓ κ} : {E : Type ℓ} {A : Type κ} → Result E A → Option A
to_option (ok a) = some a
to_option (err e) = none

pub some_ne_none {ℓ} : {A : Type ℓ} {a : A} → some a ≢ none
some_ne_none e = cc

pub some_injective {ℓ} : {A : Type ℓ} {a b : A} → some a ≡ some b → a ≡ b
some_injective e = cc

abbrev pub NonEmpty {ℓ} : {A : Type ℓ} → List A → Type 0
NonEmpty [] = ⊥
NonEmpty (a ∷ xs) = Unit

pub NonEmpty-++ {ℓ} : {A : Type ℓ} → (xs ys : List A) → NonEmpty xs → NonEmpty (xs ++ ys)
NonEmpty-++ [] ys some_first = elim some_first [ ]
NonEmpty-++ (a ∷ xs) ys some_first = tt
