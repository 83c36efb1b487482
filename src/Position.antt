-- ===== src/Position.antt =====
-- `Position` of incrementalmerkletree/src/lib.rs: the index of a leaf, a `u64`.
pub mod Digits
use incrementalmerkletree.Prelude.{
  ℕ, ◌+◌, ◌-◌, Option, none, some, Bool, false, ◌||◌, not, List, [], ◌∷◌, if◌then◌else◌, ltb, ◌==◌,
  u8, u64, shl, shr, leading_zeros, bit_and, length, filter,
}
use incrementalmerkletree.Level.{Level, iter_to}

abbrev pub Position : Type 0
Position = ℕ

-- `Iterator::any`.
abbrev pub any : (ℕ → Bool) → List ℕ → Bool
any p [] = false
any p (x ∷ xs) = p x || any p xs

unfoldable pub is_right_child : Position → Bool
is_right_child p = bit_and p 1 == 1

unfoldable pub root_level : Position → Level
root_level p = u8 (64 - leading_zeros p)

-- Digit `i` of the position is set.
unfoldable pub has_ommer_at : Position → ℕ → Bool
has_ommer_at p i = bit_and (shr p i) 1 == 1

unfoldable pub past_ommer_count : Position → ℕ
unfolding has_ommer_at root_level iter_to
past_ommer_count p = length (filter (has_ommer_at p) (iter_to 0 (root_level p)))

unfoldable pub is_complete_subtree : Position → Level → Bool
unfolding iter_to
is_complete_subtree p root_level = not (any (λ l. bit_and p (shl 1 l) == 0) (iter_to 0 root_level))

unfoldable pub add : Position → ℕ → Position
add p other = u64 (p + other)

-- `none` is the panic "position underflow".
unfoldable pub sub : Position → ℕ → Option Position
sub p other = if ltb p other then none else some (p - other)
