-- ===== src/WitnessAddrs.antt =====
-- `WitnessAddrsIter` of incrementalmerkletree/src/lib.rs, and `Position::witness_addrs`, which
-- lists what the iterator yields.
pub mod Items
use incrementalmerkletree.Prelude.{
  ℕ, zero, suc, ◌+◌, ◌-◌, ◌*◌, ◌/◌, ◌%◌, ◌^◌, ◌≤◌, ◌<◌, ◌≡◌, refl, arith, Option, some, none, List,
  [], ◌∷◌, if◌then◌else◌, ltb, u8, ◌==◌, Bool, true, false, length,
}
use incrementalmerkletree.Retention.{Source, past, future}
use incrementalmerkletree.Level.{Level}
use incrementalmerkletree.Position.{Position}
use incrementalmerkletree.Address.{Address, from_position, is_right_child, parent, sibling}

pub record WitnessAddrsIter : Type 0 where
  pub root_level : Level
  pub current : Address
  pub ommer_count : ℕ

abbrev pub is_past : Source → Bool
is_past (past i) = true
is_past future = false

unfoldable pub next : WitnessAddrsIter → Option ((Address × Source) × WitnessAddrsIter)
unfolding is_right_child parent sibling
next it =
    if ltb it.current.level it.root_level
    then (let source = if is_right_child it.current then past it.ommer_count else future in
        some (
          (sibling it.current, source),
          record it {
            current = parent it.current;
            ommer_count = if is_past source then u8 (it.ommer_count + 1) else it.ommer_count;
          },
        ))
    else none

-- What the iterator yields in at most `fuel` calls of `next`.
unfoldable pub collect : ℕ → WitnessAddrsIter → List (Address × Source)
unfolding next
collect zero it = []
collect (suc fuel) it = elim (next it) [ none ↦ [] | some (item, it') ↦ item ∷ collect fuel it' ]

-- Each call of `next` raises the level by one, so `root_level` calls exhaust the iterator.
unfoldable pub witness_addrs : Position → Level → List (Address × Source)
unfolding collect from_position
witness_addrs p root_level =
    collect root_level
      (record { root_level = root_level; current = from_position p; ommer_count = 0 })
