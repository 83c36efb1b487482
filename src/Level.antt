-- ===== src/Level.antt =====
-- `Level` of incrementalmerkletree/src/lib.rs: the height of a node above the leaves, a `u8`.
use incrementalmerkletree.Prelude.{
  ℕ, zero, suc, ◌+◌, ◌-◌, Option, none, some, List, [], ◌∷◌, if◌then◌else◌, ltb, u8,
}

abbrev pub Level : Type 0
Level = ℕ

-- The numbers from `a` on, `n` of them.
abbrev pub range : ℕ → ℕ → List ℕ
range a zero = []
range a (suc n) = a ∷ range (suc a) n

unfoldable pub iter_to : Level → Level → List Level
iter_to l other = range l (other - l)

unfoldable pub add : Level → ℕ → Level
add l value = u8 (l + value)

-- `none` is the panic on underflow.
unfoldable pub sub : Level → ℕ → Option Level
sub l value = if ltb l value then none else some (l - value)
