-- ===== src/ShardTree/Sharded/Root.antt =====
-- The cap of a `ShardTree` of shardtree/src/lib.rs: `root_internal`, which walks it, `root` and
-- `root_caching`.
use incrementalmerkletree.Prelude.{
  ℕ, zero, suc, Option, some, none, if◌then◌else◌, leb, ◌==◌, Bool, true, false, ◌&&◌, ◌||◌, ◌>>?◌,
  ok, fmap,
}
use incrementalmerkletree.Level.{Level}
use incrementalmerkletree.Position.{Position}
use incrementalmerkletree.Address.{Address, children, contains, address_eq, position_range_end}
use incrementalmerkletree.Hashable.{Hashable}
use incrementalmerkletree.ShardTree.Tree.{parent, leaf, nil, reannotate_root}
use incrementalmerkletree.ShardTree.Flags.{ephemeral}
use incrementalmerkletree.ShardTree.Prunable.{PrunableTree, node_value}
use incrementalmerkletree.ShardTree.Store.Effect.{Effect, lift, return, assert, ◌>>=◌}
use incrementalmerkletree.ShardTree.Store.Interface.{ShardStore}
use incrementalmerkletree.ShardTree.Sharded.{ShardTreeError, root_addr, ask, stored}
use incrementalmerkletree.ShardTree.Sharded.FromShards.{Asked, unwrap_or, root_from_shards}

-- A root, and the tree that may take the place of the node in the cap.
abbrev pub Answer {ℓ} : Type ℓ → Type ℓ
Answer H = H × Option (PrunableTree H)

module _ {ℓ} {H : Type ℓ} ⦃h : Hashable H⦄ where
  abbrev pub combined_value : Level → Option (PrunableTree H) → Option (PrunableTree H) → Option H
  combined_value level none r = none
  combined_value level (some l) none = none
  combined_value level (some l) (some r) = both (node_value l) (node_value r)
    where
      both : Option H → Option H → Option H
      both none y = none
      both (some x) none = none
      both (some x) (some y) = some (h.combine level x y)

  unfoldable pub rebuilt :
      Level
      → PrunableTree H
      → PrunableTree H
      → Option (PrunableTree H)
      → Option (PrunableTree H)
      → PrunableTree H
  unfolding node_value
  rebuilt level left right new_left new_right =
      parent (combined_value level new_left new_right) (unwrap_or new_left left)
        (unwrap_or new_right right)

  -- The roots of the children, `none` for one that was skipped; `none` as the result is a panic.
  unfoldable pub joined :
      Level
      → PrunableTree H
      → PrunableTree H
      → Option (Answer H)
      → Option (Answer H)
      → Option (Answer H)
  unfolding rebuilt
  joined level left right (some (l_root, new_left)) (some (r_root, new_right)) =
      some (h.combine level l_root r_root, some (rebuilt level left right new_left new_right))
  joined level left right (some (l_root, new_left)) none =
      some (l_root, some (rebuilt level left right new_left none))
  joined level left right none (some (r_root, new_right)) =
      some (r_root, some (rebuilt level left right none new_right))
  joined level left right none none = none

module _ {ℓ} {S H C : Type ℓ} {E : Type 0} ⦃h : Hashable H⦄ (b : ShardStore S H C E)
    (shard_height : Level) (s : S) where
  -- The root of a child, unless the target lies in its sibling.
  abbrev pub side :
      Bool → Address → Address → (Address → Asked E (Answer H)) → Asked E (Option (Answer H))
  side skipped a target go = elim skipped [
    | true ↦ some (ok none)
    | false ↦ go (if contains a target then target else a) >>? λ answer. some (ok (some answer))
  ]

  abbrev pub at_children :
      Option (Address × Address) → (Address → Address → Asked E (Answer H)) → Asked E (Answer H)
  at_children none f = none
  at_children (some (l_addr, r_addr)) f = f l_addr r_addr

  -- The handler of a parent without a usable root, given the recursive calls on its children.
  unfoldable pub at_parent :
      Address
      → Address
      → PrunableTree H
      → PrunableTree H
      → (Address → Address → Asked E (Answer H))
      → (Address → Address → Asked E (Answer H))
      → Asked E (Answer H)
  unfolding joined
  at_parent cap_addr target left right go_left go_right =
      at_children (children cap_addr) (λ l_addr r_addr.
        side (contains r_addr target) l_addr target (go_left l_addr) >>? λ l_result.
        side (contains l_addr target) r_addr target (go_right r_addr) >>? λ r_result.
        fmap ok (joined l_addr.level left right l_result r_result))

  abbrev pub cacheable : Address → Position → H → Asked E (Answer H)
  cacheable cap_addr truncate_at root = some (
      ok (
        root,
        if leb (position_range_end cap_addr) truncate_at
            then some (leaf (root, ephemeral))
            else none,
      ))

  -- The handler of `Nil`, by recursion on the level: it goes on with a parent of two `Nil` nodes.
  unfoldable pub root_nil : ℕ → Position → Address → Address → Asked E (Answer H)
  unfolding root_from_shards at_parent
  root_nil zero truncate_at cap_addr target =
      if address_eq cap_addr target || (cap_addr.level == shard_height)
      then (root_from_shards b shard_height s target truncate_at >>? cacheable cap_addr truncate_at)
      else none
  root_nil (suc levels) truncate_at cap_addr target =
      elim (address_eq cap_addr target || (cap_addr.level == shard_height)) [
        | true ↦
            root_from_shards b shard_height s target truncate_at >>? cacheable cap_addr truncate_at
        | false ↦
            at_parent cap_addr target nil nil (root_nil levels truncate_at)
              (root_nil levels truncate_at)
      ]

  -- A parent of two `Nil` nodes, at a number of levels above 0.
  unfoldable pub root_split : ℕ → Position → Address → Address → Asked E (Answer H)
  unfolding root_nil at_parent
  root_split zero truncate_at cap_addr target = none
  root_split (suc levels) truncate_at cap_addr target =
      at_parent cap_addr target nil nil (root_nil levels truncate_at) (root_nil levels truncate_at)

  -- A cached root serves where nothing below it is truncated or asked for.
  abbrev pub usable : Address → Address → Position → Bool
  usable cap_addr target truncate_at =
      contains target cap_addr && leb (position_range_end cap_addr) truncate_at

  abbrev pub keep_value : H → Answer H → Asked E (Answer H)
  keep_value v (root, replacement) =
      some (ok (root, fmap (λ r. reannotate_root r (some v)) replacement))

  unfoldable pub root_at_leaf : H → Position → Address → Address → Asked E (Answer H)
  unfolding root_from_shards root_split reannotate_root
  root_at_leaf v truncate_at cap_addr target =
      if leb (position_range_end cap_addr) truncate_at && contains target cap_addr
      then some (ok (v, none))
      else if cap_addr.level == shard_height
      then (root_from_shards b shard_height s
            (if contains target cap_addr then cap_addr else target) truncate_at
          >>? λ root. some (ok (root, none)))
      else (root_split cap_addr.level truncate_at cap_addr target >>? keep_value v)

  unfoldable pub root_internal : PrunableTree H → Position → Address → Address → Asked E (Answer H)
  unfolding root_at_leaf root_nil at_parent
  root_internal (parent (some cached_root) left right) truncate_at cap_addr target =
      elim (usable cap_addr target truncate_at) [
        | true ↦ some (ok (cached_root, none))
        | false ↦
            at_parent cap_addr target left right (root_internal left truncate_at)
              (root_internal right truncate_at)
      ]
  root_internal (parent none left right) truncate_at cap_addr target =
      at_parent cap_addr target left right (root_internal left truncate_at)
        (root_internal right truncate_at)
  root_internal (leaf (v, flags)) truncate_at cap_addr target =
      root_at_leaf v truncate_at cap_addr target
  root_internal nil truncate_at cap_addr target =
      root_nil cap_addr.level truncate_at cap_addr target

module _ {ℓ} {S H C : Type ℓ} {E : Type 0} ⦃h : Hashable H⦄ (b : ShardStore S H C E)
    (depth shard_height : Level) where
  -- The walk from the root of the cap.
  unfoldable pub walk_cap :
      PrunableTree H → Address → Position → Effect S (ShardTreeError E) (Answer H)
  unfolding root_internal root_addr
  walk_cap top address truncate_at s =
      lift (root_internal b shard_height s top truncate_at (root_addr depth) address) s

  abbrev pub put_updated : Option (PrunableTree H) → Effect S (ShardTreeError E) (Unit {0})
  put_updated none = return tt
  put_updated (some updated_cap) = stored (b.put_cap updated_cap)

  -- The assertion that the address lies in the tree is a panic.
  unfoldable pub root : Address → Position → Effect S (ShardTreeError E) H
  unfolding walk_cap root_addr
  root address truncate_at = assert (contains (root_addr depth) address) >>= λ _.
      ask b.get_cap >>= λ top. walk_cap top address truncate_at >>= λ answer. return answer.0

  unfoldable pub root_caching : Address → Position → Effect S (ShardTreeError E) H
  unfolding walk_cap
  root_caching address truncate_at = ask b.get_cap >>= λ top.
      walk_cap top address truncate_at >>= λ answer. put_updated answer.1 >>= λ _. return answer.0
