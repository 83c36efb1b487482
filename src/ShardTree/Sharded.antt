-- ===== src/ShardTree/Sharded.antt =====
-- `ShardTree` of shardtree/src/lib.rs, over any `ShardStore`: its addresses, its errors, and the
-- queries of single shards. The const generics `DEPTH` and `SHARD_HEIGHT` are arguments, and so is
-- the field `max_checkpoints`, which no method changes; a method is an effect on the field `store`.
pub mod FromShards
pub mod Root
pub mod Excess
pub mod Checkpoints
pub mod Insert
pub mod Query
pub mod Within
pub mod Across
use incrementalmerkletree.Prelude.{
  ℕ, ◌-◌, Option, some, none, List, [], ◌∷◌, if◌then◌else◌, Bool, true, false, Result, ok, err, u64,
  u8, ◌+◌, shl, foldl,
}
use incrementalmerkletree.Level.{Level}
use incrementalmerkletree.Position.{Position}
use incrementalmerkletree.Address.{Address, above_position}
use incrementalmerkletree.OrderedMap.{OrderedSet, ℕ-Ord}
use incrementalmerkletree.OrderedMap
use incrementalmerkletree.ShardTree.Flags.{RetentionFlags, is_marked}
use incrementalmerkletree.ShardTree.Located.{value_at_position}
use incrementalmerkletree.ShardTree.Prunable.Located.{
  LocatedPrunableTree, QueryError, marked_positions,
}
use incrementalmerkletree.ShardTree.Prunable.Located.Insert.{InsertionError}
use incrementalmerkletree.ShardTree.Store.Effect.{
  Effect, return, read, expect, lift, with_error, ◌>>=◌, for_each,
}
use incrementalmerkletree.ShardTree.Store.Interface.{ShardStore}

pub data ShardTreeError {ℓ} (E : Type ℓ) : Type ℓ where
  query : QueryError → ShardTreeError E
  insert : InsertionError → ShardTreeError E
  storage : E → ShardTreeError E

unfoldable pub root_addr : Level → Address
root_addr depth = record { level = depth; index = 0 }

unfoldable pub subtree_addr : Level → Position → Address
unfolding above_position
subtree_addr shard_height pos = above_position shard_height pos

unfoldable pub max_subtree_index : Level → Level → ℕ
max_subtree_index depth shard_height = shl 1 (u8 (depth + 256 - shard_height)) - 1

module _ {ℓ κ} {S : Type ℓ} {E : Type 0} {A : Type κ} where
  -- A call of the store.
  abbrev pub stored : Effect S E A → Effect S (ShardTreeError E) A
  stored = with_error storage

  abbrev pub ask : (S → Result E A) → Effect S (ShardTreeError E) A
  ask f = with_error storage (read f)

  abbrev pub inserting : Option (Result InsertionError A) → Effect S (ShardTreeError E) A
  inserting m = with_error ShardTreeError.insert (lift m)

  abbrev pub querying : Option (Result QueryError A) → Effect S (ShardTreeError E) A
  querying m = with_error query (lift m)

module _ {ℓ} {H : Type ℓ} where
  abbrev pub value_if_marked : Option (H × RetentionFlags) → Option H
  value_if_marked none = none
  value_if_marked (some (v, r)) = if is_marked r then some v else none

  -- The value at the position in the shard, if there is a shard.
  abbrev pub value_in :
      Option (LocatedPrunableTree H) → Position → Option (Option (H × RetentionFlags))
  value_in none position = some none
  value_in (some t) position = value_at_position t position

  abbrev pub marked_in : Option (LocatedPrunableTree H) → Option (List Position)
  marked_in none = some []
  marked_in (some t) = marked_positions t

module _ {ℓ} {S H C : Type ℓ} {E : Type 0} (b : ShardStore S H C E) where
  unfoldable pub get_marked_leaf : Level → Position → Effect S (ShardTreeError E) (Option H)
  unfolding subtree_addr value_at_position is_marked
  get_marked_leaf shard_height position =
      ask (b.get_shard (subtree_addr shard_height position)) >>= λ t.
      expect (value_in t position) >>= λ found. return (value_if_marked found)

  unfoldable pub marked_from_roots :
      List Address → OrderedSet Position → Effect S (ShardTreeError E) (OrderedSet Position)
  unfolding OrderedMap.insert marked_positions
  marked_from_roots [] result = return result
  marked_from_roots (addr ∷ addrs) result = ask (b.get_shard addr) >>= λ t.
      expect (marked_in t) >>= λ positions.
      marked_from_roots addrs (foldl (λ set p. OrderedMap.insert p tt set) result positions)

  unfoldable pub marked_positions_of : Effect S (ShardTreeError E) (OrderedSet Position)
  unfolding marked_from_roots
  marked_positions_of = ask b.get_shard_roots >>= λ addrs. marked_from_roots addrs []
