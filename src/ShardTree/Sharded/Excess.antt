-- ===== src/ShardTree/Sharded/Excess.antt =====
-- `prune_excess_checkpoints` of shardtree/src/lib.rs: the oldest checkpoints go, with the flags that
-- only they kept.
use Prim.Native.Nat.{Ordering, lt, eq, gt, compare}
use incrementalmerkletree.Prelude.{
  ℕ, ◌-◌, Option, some, none, List, [], ◌∷◌, ◌++◌, if◌then◌else◌, ltb, ◌==◌, Bool, ok, length,
  is_empty, bit_or, foldl, ◌≡◌, ap₂, subst, arith,
}
use incrementalmerkletree.Level.{Level}
use incrementalmerkletree.Position.{Position}
use incrementalmerkletree.Address.{Address}
use incrementalmerkletree.Hashable.{Hashable}
use incrementalmerkletree.OrderedMap.{Ord, OrderedMap, get, insert, ℕ-Ord}
use incrementalmerkletree.ShardTree.Flags.{RetentionFlags, checkpoint, marked, difference}
use incrementalmerkletree.ShardTree.Prunable.Located.{LocatedPrunableTree}
use incrementalmerkletree.ShardTree.Prunable.Located.FrontierNodes.{FlagMap, clear_flags}
use incrementalmerkletree.ShardTree.Store.{Checkpoint, TreeState, empty, at_position}
use incrementalmerkletree.ShardTree.Store.Effect.{Effect, return, expect, ◌>>=◌, for_each}
use incrementalmerkletree.ShardTree.Store.Interface.{ShardStore}
use incrementalmerkletree.ShardTree.Sharded.{ShardTreeError, subtree_addr, ask, stored}

-- The flags to clear, by shard and position. An address is compared by its level first.
abbrev pub ClearMap : Type 0
ClearMap = OrderedMap Address (OrderedMap Position RetentionFlags)

unfoldable pub address_compare : Address → Address → Ordering
address_compare a b = elim (compare a.level b.level) [
  | lt ↦ lt
  | eq ↦ compare a.index b.index
  | gt ↦ gt
]

address_eq_of : {a b : Address} → a.level ≡ b.level → a.index ≡ b.index → a ≡ b
address_eq_of p q = ap₂ (λ level index. record { level = level; index = index }) p q

-- `Ord` of `Address`, derived.
instance pub Address-Ord : Ord Address
unfolding address_compare
Address-Ord = record {
  compare = address_compare;
  compare_eq = λ a b. (
    λ e. address_eq_of (ground arith) (ground arith),
    λ p. subst (λ c. address_compare a c ≡ eq) p (ground arith),
  );
  compare_flip = λ a b. ground arith;
  compare_trans = λ a b c l m. ground arith;
}

-- `|=` on the flags of a position, or a new entry.
abbrev pub with_flags : Option RetentionFlags → RetentionFlags → RetentionFlags
with_flags none flags = flags
with_flags (some old) flags = bit_or old flags

unfoldable pub add_flags :
    OrderedMap Position RetentionFlags
    → Position
    → RetentionFlags
    → OrderedMap Position RetentionFlags
unfolding insert get
add_flags to_clear pos flags = insert pos (with_flags (get pos to_clear) flags) to_clear

abbrev pub or_empty :
    Option (OrderedMap Position RetentionFlags) → OrderedMap Position RetentionFlags
or_empty none = []
or_empty (some m) = m

-- `&= !flags_to_clear` where there is an entry.
unfoldable pub keep_flags :
    OrderedMap Position RetentionFlags
    → Position
    → RetentionFlags
    → OrderedMap Position RetentionFlags
unfolding insert get difference
keep_flags to_clear pos flags = elim (get pos to_clear) [
  | none ↦ to_clear
  | some old ↦ insert pos (difference old flags) to_clear
]

-- The closure `clear_at`.
unfoldable pub clear_at : Level → Bool → Position → RetentionFlags → ClearMap → ClearMap
unfolding add_flags keep_flags insert get subtree_addr
clear_at shard_height removing pos flags clear_positions =
    let addr = subtree_addr shard_height pos in
    if removing
    then insert addr (add_flags (or_empty (get addr clear_positions)) pos flags) clear_positions
    else elim (get addr clear_positions) [
      | none ↦ clear_positions
      | some to_clear ↦ insert addr (keep_flags to_clear pos flags) clear_positions
    ]

abbrev pub clear_state : Level → Bool → TreeState → ClearMap → ClearMap
clear_state shard_height removing empty clear_positions = clear_positions
clear_state shard_height removing (at_position pos) clear_positions =
    clear_at shard_height removing pos checkpoint clear_positions

-- What one checkpoint adds to the flags to clear, or keeps from them.
unfoldable pub clear_checkpoint : Level → Bool → Checkpoint → ClearMap → ClearMap
unfolding clear_at
clear_checkpoint shard_height removing c clear_positions =
    foldl (λ m e. clear_at shard_height removing e.0 marked m)
      (clear_state shard_height removing c.tree_state clear_positions) c.marks_removed

-- The callback of `prune_excess_checkpoints`: the checkpoints to delete and the flags to clear.
unfoldable pub note_excess {ℓ} :
    {C : Type ℓ} → Level → ℕ → List C × ClearMap → C → Checkpoint → List C × ClearMap
unfolding clear_checkpoint
note_excess shard_height remove_count (to_delete, clear_positions) cid c =
    let removing = ltb (length to_delete) remove_count in
    (
      if removing then to_delete ++ cid ∷ [] else to_delete,
      clear_checkpoint shard_height removing c clear_positions,
    )

-- The two calls of `retain`.
unfoldable pub retain_flags :
    OrderedMap Position RetentionFlags → OrderedMap Position RetentionFlags
retain_flags [] = []
retain_flags ((pos, flags) ∷ rest) =
    let kept = retain_flags rest in if flags == 0 then kept else (pos, flags) ∷ kept

unfoldable pub retain_shards : ClearMap → ClearMap
unfolding retain_flags
retain_shards [] = []
retain_shards ((addr, to_clear) ∷ rest) =
    let kept = retain_shards rest in
    let flags = retain_flags to_clear in if is_empty flags then kept else (addr, flags) ∷ kept

module _ {ℓ} {S H C : Type ℓ} {E : Type 0} ⦃h : Hashable H⦄ ⦃o : Ord C⦄ (b : ShardStore S H C E)
    (shard_height : Level) where
  abbrev pub clear_in :
      Option (LocatedPrunableTree H) → FlagMap → Effect S (ShardTreeError E) (Unit {0})
  clear_in none positions = return tt
  clear_in (some to_clear) positions =
      expect (clear_flags to_clear positions) >>= λ cleared. stored (b.put_shard cleared)

  unfoldable pub clear_shard : Address × FlagMap → Effect S (ShardTreeError E) (Unit {0})
  unfolding clear_flags
  clear_shard (addr, positions) = ask (b.get_shard addr) >>= λ to_clear. clear_in to_clear positions

  unfoldable pub remove_excess : List C × ClearMap → Effect S (ShardTreeError E) (Unit {0})
  unfolding clear_shard retain_shards
  remove_excess (checkpoints_to_delete, clear_positions) =
      for_each clear_shard (retain_shards clear_positions) >>= λ _.
      for_each (λ c. stored (b.remove_checkpoint c)) checkpoints_to_delete

  unfoldable pub prune_excess_checkpoints : ℕ → Effect S (ShardTreeError E) (Unit {0})
  unfolding note_excess remove_excess
  prune_excess_checkpoints max_checkpoints = ask b.checkpoint_count >>= λ count.
      if ltb max_checkpoints count
      then (stored (
            b.with_checkpoints count
              (λ r id c. ok (note_excess shard_height (count - max_checkpoints) r id c)) ([], []))
          >>= remove_excess)
      else return tt
