-- ===== src/ShardTree/Sharded/Across.antt =====
-- `root_from_shards` of shardtree/src/lib.rs at an address above the shards.
pub mod Collect
use incrementalmerkletree.Prelude.{
  ℕ, zero, suc, ◌+◌, ◌-◌, ◌*◌, ◌^◌, ◌≤◌, ◌<◌, some, List, [], ◌∷◌, leb, false, ok, err, ◌≡◌, ◌⊎◌,
  refl, sym, ap, ap₂, ◌∙◌, inl, inr, >>?-ok, shl-lt, subst, arith, ◌>>?◌, pow_add, pow_pos, shl,
  u64, pow_double,
}
use native.Mathlib.Nat.{mul-le-mul_right, mul-le-mul_left, mod-eq_of_lt}
use incrementalmerkletree.Level.{Level}
use incrementalmerkletree.Position.{Position}
use incrementalmerkletree.Address.{Address, context}
use incrementalmerkletree.Address.Shape.{Fits, index-lt}
use incrementalmerkletree.Hashable.{Hashable}
use incrementalmerkletree.ShardTree.Prunable.Located.{QueryError}
use incrementalmerkletree.ShardTree.Prunable.Sound.{value, truncated}
use incrementalmerkletree.ShardTree.Store.Interface.{ShardStore}
use incrementalmerkletree.ShardTree.Sharded.{query}
use incrementalmerkletree.ShardTree.Sharded.Within.{RootOrMissing}
use incrementalmerkletree.ShardTree.Sharded.FromShards.{
  Asked, RootStack, from_context, root_from_shards, indices, collect_roots, finish, stack_root,
}
use incrementalmerkletree.ShardTree.Sharded.FromShards.Stack.{Stack, from_left, at_top}
use incrementalmerkletree.ShardTree.Sharded.Across.Collect.{shard_at, Kept, Missing, collect-Done}

-- The first shard below a node, and the one behind the last.
abbrev pub first_shard : Level → Address → ℕ
first_shard shard_height top = top.index * 2 ^ (top.level - shard_height)

abbrev pub shards_end : Level → Address → ℕ
shards_end shard_height top = (top.index + 1) * 2 ^ (top.level - shard_height)

module _ (shard_height : Level) (top : Address) (above : shard_height < top.level)
    (fits : Fits top) where
  shards_span : shards_end shard_height top * 2 ^ shard_height ≡ (top.index + 1) * 2 ^ top.level
  shards_span =
      let levels : (top.level - shard_height) + shard_height ≡ top.level = omega arith in
      let powers = sym (pow_add (top.level - shard_height) shard_height) ∙ ap (λ k. 2 ^ k) levels in
      omega (arith, ap (λ (t : ℕ). (top.index + 1) * t) powers)

  shard_at-Fits : (i : ℕ) → i < shards_end shard_height top → Fits (shard_at shard_height i)
  shard_at-Fits i lt = record {
    levels = omega (arith, fits.levels);
    leaves = omega (
      arith,
      fits.leaves,
      shards_span,
      mul-le-mul_right {m = i + 1} {n = shards_end shard_height top} (2 ^ shard_height)
          (omega arith),
    );
  }

  shards_end-lt : shards_end shard_height top < 2 ^ 64
  shards_end-lt = omega (
    arith,
    fits.leaves,
    shards_span,
    mul-le-mul_left {m = 1} {n = 2 ^ shard_height} (shards_end shard_height top)
        (pow_pos shard_height),
  )

  context_first : shl top.index (top.level - shard_height) ≡ first_shard shard_height top
  context_first =
      shl-lt top.index (top.level - shard_height) (omega (arith, fits.levels))
        (omega (arith, shards_end-lt))

  context_end : shl (u64 (top.index + 1)) (top.level - shard_height) ≡ shards_end shard_height top
  context_end =
      rw (mod-eq_of_lt (index-lt top fits)) (
        shl-lt (top.index + 1) (top.level - shard_height) (omega (arith, fits.levels))
          shards_end-lt)

  context_above :
      context top shard_height
      ≡ inr (record { start = first_shard shard_height top; end = shards_end shard_height top })
  unfolding context
  context_above = rw (lt→leb_false, context_first, context_end) refl
    where
      lt→leb_false : leb top.level shard_height ≡ false
      lt→leb_false = ground (arith, above)

module _ {ℓ} {H : Type ℓ} ⦃h : Hashable H⦄ (g : ℕ → H) (top : Address) where
  same_node :
      (k l i j : ℕ)
      → k ≡ l
      → i ≡ j
      → Stack g top (record { level = k; index = i }) []
      → Stack g top (record { level = l; index = j }) []
  same_node k l i j levels indexes =
      subst (λ q. Stack g top q [])
        (ap₂ (λ (m n : ℕ). record { level = m; index = n }) levels indexes)

  leftmost :
      (d : ℕ)
      → d ≤ top.level
      → Stack g top (record { level = top.level - d; index = top.index * 2 ^ d }) []
  leftmost zero le =
      same_node top.level (top.level - 0) top.index (top.index * 2 ^ 0) (omega arith) (omega arith)
        at_top
  leftmost (suc d) le =
      same_node (top.level - d - 1) (top.level - suc d) (2 * (top.index * 2 ^ d))
        (top.index * 2 ^ suc d) (omega arith)
        (omega (arith, ap (λ (t : ℕ). top.index * t) (pow_double d)))
        (from_left (record { level = top.level - d; index = top.index * 2 ^ d }) [] (omega arith)
          (leftmost d (omega arith)))

  first-Stack :
      (shard_height : Level)
      → shard_height < top.level
      → Stack g top (shard_at shard_height (first_shard shard_height top)) []
  first-Stack shard_height above =
      same_node (top.level - (top.level - shard_height)) shard_height (first_shard shard_height top)
        (first_shard shard_height top) (omega arith) refl
        (leftmost (top.level - shard_height) (omega arith))

module _ {ℓ} {S H C : Type ℓ} {E : Type 0} ⦃h : Hashable H⦄ (b : ShardStore S H C E)
    (shard_height : Level) (s : S) (f : ℕ → H) where
  finish-RootOrMissing :
      (top : Address) (truncate_at : Position) (o : Asked E (RootStack H × List Address))
      → ((stack : RootStack H) × (o ≡ some (ok (stack, [])))
          × (stack_root top.level stack ≡ value (truncated truncate_at f) top))
        ⊎ Missing b shard_height s f truncate_at o
      → RootOrMissing b shard_height s f top truncate_at (o >>? finish b shard_height s top.level)
  finish-RootOrMissing top truncate_at o (inl (stack, e, v)) =
      inl (>>?-ok e _ ∙ ap (λ r. some (ok r)) v)
  finish-RootOrMissing top truncate_at o (inr (stack, [], e, ne)) = elim ne [ ]
  finish-RootOrMissing top truncate_at o (inr (stack, a ∷ missing, e, ne)) =
      inr (a ∷ missing, >>?-ok e _)

  -- Let a node stand above the shards of a tree, with an address in 64 bits, and let the store
  -- answer for each shard below it with nothing or with a tree at the address of the shard
  -- that stands for a sequence of leaves. Then the root that is hashed together from the
  -- shards, as of a position, is the one that hashing these leaves gives, with empty leaves
  -- from the position on, or the answer is the error that names missing nodes.
  pub root_from_shards-across :
      (top : Address) (truncate_at : Position)
      → shard_height < top.level
      → Fits top
      → ((i : ℕ)
          → first_shard shard_height top ≤ i
          → i < shards_end shard_height top
          → Kept b shard_height s f i)
      → (root_from_shards b shard_height s top truncate_at
          ≡ some (ok (value (truncated truncate_at f) top)))
        ⊎ ((missing : List Address) × (root_from_shards b shard_height s top truncate_at
              ≡ some (err (query (QueryError.tree_incomplete missing)))))
  unfolding root_from_shards from_context
  root_from_shards-across top truncate_at above fits kept =
      subst (RootOrMissing b shard_height s f top truncate_at)
        (sym (
          ap (from_context b shard_height s top truncate_at)
            (context_above shard_height top above fits)))
        (finish-RootOrMissing top truncate_at
          (collect_roots b shard_height s (indices first (last - first)) truncate_at [] [])
          (collect-Done b shard_height s f truncate_at last
            (shard_at-Fits shard_height top above fits) top fits
            (shards_span shard_height top above fits) first (last - first) [] (omega arith) kept
            (first-Stack (truncated truncate_at f) top shard_height above)))
    where
      first : ℕ
      first = first_shard shard_height top

      last : ℕ
      last = shards_end shard_height top
