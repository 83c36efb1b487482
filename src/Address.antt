-- ===== src/Address.antt =====
-- `Address` of incrementalmerkletree/src/lib.rs: the level and the index of a node of the tree.
pub mod Shape
pub mod Containment
pub mod Family
pub mod Descent
pub mod Ancestor
pub mod Incomplete
use Prim.Native.Nat.{Ordering}
use incrementalmerkletree.Prelude.{
  ℕ, zero, suc, ◌+◌, ◌-◌, ◌*◌, ◌^◌, ◌<◌, max, Option, none, some, Bool, true, false, ◌&&◌, ◌||◌,
  ◌⊎◌, inl, inr, if◌then◌else◌, ltb, leb, ◌==◌, u8, u64, shl, shr, leading_zeros, bit_and, bit_xor,
  ◌>>=◌,
}
use incrementalmerkletree.Level.{Level}
use incrementalmerkletree.Level
use incrementalmerkletree.Position.{Position}
use incrementalmerkletree.Position

pub record Address : Type 0 where
  pub level : Level
  pub index : ℕ

-- `core::ops::Range`.
pub record Range : Type 0 where
  pub start : ℕ
  pub end : ℕ

-- The derived `==`.
unfoldable pub address_eq : Address → Address → Bool
address_eq a b = (a.level == b.level) && (a.index == b.index)

unfoldable pub from_position : Position → Address
from_position p = record { level = 0; index = p }

unfoldable pub to_position : Address → Option Position
to_position a = if a.level == 0 then some a.index else none

unfoldable pub above_position : Level → Position → Address
above_position level position = record { level = level; index = shr position level }

unfoldable pub parent : Address → Address
unfolding Level.add shr
parent a = record { level = Level.add a.level 1; index = shr a.index 1 }

unfoldable pub sibling : Address → Address
sibling a = record { level = a.level; index = bit_xor a.index 1 }

-- Level 0 has no children; above it `level - 1` does not underflow.
unfoldable pub children : Address → Option (Address × Address)
unfolding shl
children a =
    if a.level == 0
    then none
    else some (
      record { level = a.level - 1; index = shl a.index 1 },
      record { level = a.level - 1; index = u64 (shl a.index 1 + 1) },
    )

unfoldable pub is_ancestor_of : Address → Address → Bool
is_ancestor_of a addr = ltb addr.level a.level && (shr addr.index (a.level - addr.level) == a.index)

unfoldable pub common_ancestor_of : Address → Address → Address
unfolding Level.add
common_ancestor_of higher lower =
    let lower_ancestor_idx = shr lower.index (higher.level - lower.level) in
    let index_delta = bit_xor higher.index lower_ancestor_idx in
    let level_delta = u8 (64 - leading_zeros index_delta) in
    record {
      level = Level.add higher.level level_delta;
      index = shr (max higher.index lower_ancestor_idx) level_delta;
    }

unfoldable pub common_ancestor : Address → Address → Address
unfolding common_ancestor_of
common_ancestor a other =
    if leb other.level a.level then common_ancestor_of a other else common_ancestor_of other a

unfoldable pub contains : Address → Address → Bool
unfolding address_eq is_ancestor_of
contains a addr = address_eq a addr || is_ancestor_of a addr

unfoldable pub position_range_start : Address → Position
position_range_start a = shl a.index a.level

unfoldable pub position_range_end : Address → Position
position_range_end a = shl (u64 (a.index + 1)) a.level

-- `none` is the panic of the subtraction.
unfoldable pub max_position : Address → Option Position
unfolding position_range_end Position.sub
max_position a = Position.sub (position_range_end a) 1

unfoldable pub position_range : Address → Range
unfolding position_range_start position_range_end
position_range a = record { start = position_range_start a; end = position_range_end a }

-- `Range::contains`.
unfoldable pub in_range : Range → Position → Bool
in_range r p = leb r.start p && ltb p r.end

-- `inl` is `Either::Left`, the ancestor; `inr` the range of indices below.
unfoldable pub context : Address → Level → Address ⊎ Range
context a level =
    if leb a.level level
    then inl (record { level = level; index = shr a.index (level - a.level) })
    else inr (record {
      start = shl a.index (a.level - level);
      end = shl (u64 (a.index + 1)) (a.level - level);
    })

unfoldable pub position_cmp : Address → Position → Ordering
unfolding position_range
position_cmp a pos =
    if ltb pos (position_range a).start
    then Ordering.gt
    else if leb (position_range a).end pos
    then Ordering.lt
    else Ordering.eq

unfoldable pub is_left_child : Address → Bool
is_left_child a = bit_and a.index 1 == 0

unfoldable pub is_right_child : Address → Bool
is_right_child a = bit_and a.index 1 == 1

-- The loop of `current_incomplete`; `none` is the end of the fuel, where the source is
-- `unreachable!`.
unfoldable pub incomplete_from : ℕ → Level → ℕ → Option Address
unfolding shr
incomplete_from zero level index = none
incomplete_from (suc fuel) level index = elim (bit_and index 1 == 1) [
  | true ↦ incomplete_from fuel (u8 (level + 1)) (shr index 1)
  | false ↦ some (record { level = level; index = index })
]

-- 65 rounds: an index of 64 set bits takes 64 shifts and one more test.
unfoldable pub current_incomplete : Address → Option Address
unfolding incomplete_from
current_incomplete a = incomplete_from 65 a.level a.index

unfoldable pub next_incomplete_parent : Address → Option Address
unfolding is_right_child current_incomplete
next_incomplete_parent a =
    if is_right_child a
    then current_incomplete a
    else current_incomplete (record { level = a.level; index = u64 (a.index + 1) })

unfoldable pub next_at_level : Address → Address
next_at_level a = record { level = a.level; index = u64 (a.index + 1) }
