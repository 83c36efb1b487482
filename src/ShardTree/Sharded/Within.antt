-- ===== src/ShardTree/Sharded/Within.antt =====
-- `root_from_shards` of shardtree/src/lib.rs at an address that lies in a single shard.
use incrementalmerkletree.Prelude.{
  ℕ, ◌-◌, ◌/◌, ◌^◌, ◌≤◌, ◌<◌, Option, some, none, List, [], ◌∷◌, if◌then◌else◌, leb, leb→le, le→leb,
  true, Result, ok, err, ◌≡◌, ◌⊎◌, refl, sym, ap, ◌∙◌, inl, inr, fmap, >>=-some, >>?-ok, shr-lt,
  subst, Bool-cases, arith, ◌>>=◌, ◌>>?◌,
}
use incrementalmerkletree.Level.{Level}
use incrementalmerkletree.Position.{Position}
use incrementalmerkletree.Address.{Address, context, contains, position_range_start}
use incrementalmerkletree.Address.Shape.{Fits}
use incrementalmerkletree.Address.Containment.{contains_iff}
use incrementalmerkletree.Hashable.{Hashable, empty_root}
use incrementalmerkletree.ShardTree.Located.{subtree}
use incrementalmerkletree.ShardTree.Prunable.Located.{
  LocatedPrunableTree, QueryError, located_root_hash,
}
use incrementalmerkletree.ShardTree.Prunable.Sound.{
  IsSound, value, truncated, value-truncated_right,
}
use incrementalmerkletree.ShardTree.Prunable.Sound.RootHash.{root_hash_sound}
use incrementalmerkletree.ShardTree.Prunable.Sound.Subtree.{FoundAt, subtree_from-IsSound}
use incrementalmerkletree.ShardTree.Store.Interface.{ShardStore}
use incrementalmerkletree.ShardTree.Sharded.{query}
use incrementalmerkletree.ShardTree.Sharded.FromShards.{
  Asked, from_context, root_from_shards, node_hash, part_hash, incomplete_error, asked,
}

-- The address of the shard with the node.
unfoldable pub shard_of : Level → Address → Address
shard_of shard_height a = record {
  level = shard_height;
  index = a.index / 2 ^ (shard_height - a.level);
}

context_within :
    (shard_height : Level) (a : Address)
    → a.level ≤ shard_height
    → shard_height < 64
    → context a shard_height ≡ inl (shard_of shard_height a)
unfolding context shard_of
context_within shard_height a le lt =
    rw (le→leb a.level shard_height le, shr-lt a.index (shard_height - a.level) (omega arith)) refl

shard_of-contains :
    (shard_height : Level) (a : Address)
    → a.level ≤ shard_height
    → shard_height < 64
    → contains (shard_of shard_height a) a ≡ true
unfolding shard_of
shard_of-contains shard_height a le lt = (contains_iff (shard_of shard_height a) a lt).1 (le, refl)

module _ {ℓ} {H : Type ℓ} ⦃h : Hashable H⦄ (f : ℕ → H) where
  -- A shard that the store has is one of the leaves, at its address.
  unfoldable pub ShardIsSound : Address → Option (LocatedPrunableTree H) → Type ℓ
  ShardIsSound addr none = Unit
  ShardIsSound addr (some t) = (t.root_addr ≡ addr) × IsSound f addr t.root

  abbrev Hashed : Address → Position → Option (Result (List Address) H) → Type ℓ
  Hashed a truncate_at o =
      (o ≡ some (ok (value (truncated truncate_at f) a)))
      ⊎ ((missing : List Address) × (o ≡ some (err missing)))

module _ {ℓ} {S H C : Type ℓ} {E : Type 0} ⦃h : Hashable H⦄ (b : ShardStore S H C E)
    (shard_height : Level) (s : S) (f : ℕ → H) where
  part_hash-Hashed :
      (a : Address) (truncate_at : Position) (o : Option (Option (LocatedPrunableTree H)))
      → Fits a
      → FoundAt f a o
      → Hashed f a truncate_at (o >>= part_hash b shard_height s a truncate_at)
  unfolding located_root_hash
  part_hash-Hashed a truncate_at o fits (inl e) = inr (a ∷ [], >>=-some e _)
  part_hash-Hashed a truncate_at o fits (inr (t, e, st)) =
      subst (Hashed f a truncate_at) (sym (>>=-some e (part_hash b shard_height s a truncate_at)))
        (root_hash_sound f truncate_at a t fits st)

  node_hash-Hashed :
      (top a : Address) (truncate_at : Position) (shard : Option (LocatedPrunableTree H))
      → Fits top
      → Fits a
      → contains top a ≡ true
      → ShardIsSound f top shard
      → Hashed f a truncate_at (node_hash b shard_height s top a truncate_at shard)
  unfolding ShardIsSound
  node_hash-Hashed top a truncate_at none ft fa inside st = inr (top ∷ [], refl)
  node_hash-Hashed top a truncate_at (some t) ft fa inside (e, st) =
      part_hash-Hashed a truncate_at (subtree t a) fa part
    where
      part : FoundAt f a (subtree t a)
      part = unfold subtree in rw (e, inside) (subtree_from-IsSound f top t.root a ft inside st)

  incomplete_error-Hashed :
      (a : Address) (truncate_at : Position) (o : Option (Result (List Address) H))
      → Hashed f a truncate_at o
      → (fmap (incomplete_error b shard_height s) o ≡ some (ok (value (truncated truncate_at f) a)))
        ⊎ ((missing : List Address) × (fmap (incomplete_error b shard_height s) o
              ≡ some (err (query (QueryError.tree_incomplete missing)))))
  incomplete_error-Hashed a truncate_at o (inl e) =
      inl (ap (fmap (incomplete_error b shard_height s)) e)
  incomplete_error-Hashed a truncate_at o (inr (missing, e)) =
      inr (missing, ap (fmap (incomplete_error b shard_height s)) e)

  -- What a computation of a root may give.
  abbrev pub RootOrMissing : Address → Position → Asked E H → Type ℓ
  RootOrMissing a truncate_at o =
      (o ≡ some (ok (value (truncated truncate_at f) a)))
      ⊎ ((missing : List Address) × (o ≡ some (err (query (QueryError.tree_incomplete missing)))))

  from_context-RootOrMissing :
      (top a : Address) (truncate_at : Position) (shard : Option (LocatedPrunableTree H))
      → Fits top
      → Fits a
      → contains top a ≡ true
      → b.get_shard top s ≡ ok shard
      → ShardIsSound f top shard
      → RootOrMissing a truncate_at (from_context b shard_height s a truncate_at (inl top))
  unfolding from_context
  from_context-RootOrMissing top a truncate_at shard ft fa inside stored st =
      elim (Bool-cases (leb truncate_at (position_range_start a))) [
        | inl out ↦ inl (
            ap (λ t. if t then some (ok (empty_root a.level)) else in_shard) out
            ∙ ap (λ v. some (ok v))
                (sym (value-truncated_right f a truncate_at fa (leb→le _ _ out))))
        | inr some_left ↦
            subst (RootOrMissing a truncate_at)
              (sym (
                ap (λ t. if t then some (ok (empty_root a.level)) else in_shard) some_left
                ∙ >>?-ok (ap (λ r. asked b shard_height s r) stored) _))
              (incomplete_error-Hashed a truncate_at
                (node_hash b shard_height s top a truncate_at shard)
                (node_hash-Hashed top a truncate_at shard ft fa inside st))
      ]
    where
      in_shard : Asked E H
      in_shard = asked b shard_height s (b.get_shard top s) >>? λ shard.
          fmap (incomplete_error b shard_height s)
            (node_hash b shard_height s top a truncate_at shard)

  -- Let a node lie in one shard of a tree, both with addresses in 64 bits, and let the store
  -- answer for this shard with nothing or with a tree at its address that stands for a
  -- sequence of leaves. Then the root of the node as of a position is the one that hashing
  -- these leaves gives, with empty leaves from the position on, or the answer is the error
  -- that names missing nodes.
  pub root_from_shards-value :
      (a : Address) (truncate_at : Position) (shard : Option (LocatedPrunableTree H))
      → a.level ≤ shard_height
      → Fits a
      → Fits (shard_of shard_height a)
      → b.get_shard (shard_of shard_height a) s ≡ ok shard
      → ShardIsSound f (shard_of shard_height a) shard
      → (root_from_shards b shard_height s a truncate_at
          ≡ some (ok (value (truncated truncate_at f) a)))
        ⊎ ((missing : List Address) × (root_from_shards b shard_height s a truncate_at
              ≡ some (err (query (QueryError.tree_incomplete missing)))))
  unfolding root_from_shards shard_of
  root_from_shards-value a truncate_at shard le fa ft stored st =
      subst (RootOrMissing a truncate_at)
        (sym (
          ap (from_context b shard_height s a truncate_at)
            (context_within shard_height a le ft.levels)))
        (from_context-RootOrMissing (shard_of shard_height a) a truncate_at shard ft fa
          (shard_of-contains shard_height a le ft.levels) stored st)
