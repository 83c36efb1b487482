-- ===== src/ShardTree/Sharded/Across/Collect.antt =====
-- The loop of `root_from_shards` of shardtree/src/lib.rs over the shards below a node.
use incrementalmerkletree.Prelude.{
  ℕ, zero, suc, ◌+◌, ◌*◌, ◌^◌, ◌≤◌, ◌<◌, Option, some, none, List, [], ◌∷◌, ◌++◌, leb, leb→le,
  false, Result, ok, err, ◌≡◌, ◌⊎◌, refl, sym, ap, ap₂, ◌∙◌, inl, inr, >>=-some, >>?-ok, subst,
  Bool-cases, arith, NonEmpty, NonEmpty-++, elim-true, elim-false, pow_pos,
}
use native.Mathlib.Nat.{lt_of_mul-lt-mul_right, mul-lt-mul_of_pos_right}
use incrementalmerkletree.Level.{Level}
use incrementalmerkletree.Position.{Position}
use incrementalmerkletree.Address.{Address, position_range_start, position_range_end}
use incrementalmerkletree.Address.Shape.{Fits, end_eq}
use incrementalmerkletree.Hashable.{Hashable}
use incrementalmerkletree.ShardTree.Prunable.Located.{LocatedPrunableTree, located_root_hash}
use incrementalmerkletree.ShardTree.Prunable.{root_hash}
use incrementalmerkletree.ShardTree.Prunable.Sound.{value, truncated}
use incrementalmerkletree.ShardTree.Prunable.Sound.RootHash.{Answers, Answered, root_hash-Answered}
use incrementalmerkletree.ShardTree.Store.Interface.{ShardStore}
use incrementalmerkletree.ShardTree.Sharded.Within.{ShardIsSound}
use incrementalmerkletree.ShardTree.Sharded.FromShards.{
  Asked, RootStack, shard_hash, asked, indices, collect_roots, collect_root, push_root, stack_root,
}
use incrementalmerkletree.ShardTree.Sharded.FromShards.Stack.{
  Stack, Pushed, Stack-Fits, Stack-end, push_root-Pushed, stack_root-value, stack_root-full,
}

abbrev pub shard_at : Level → ℕ → Address
shard_at shard_height i = record { level = shard_height; index = i }

module _ {ℓ} {S H C : Type ℓ} {E : Type 0} ⦃h : Hashable H⦄ (b : ShardStore S H C E)
    (shard_height : Level) (s : S) (f : ℕ → H) where
  -- The store answers for a shard with nothing or with a tree that stands for its leaves.
  abbrev pub Kept : ℕ → Type ℓ
  Kept i =
      (shard : Option (LocatedPrunableTree H)) × (b.get_shard (shard_at shard_height i) s
        ≡ ok shard)
      × ShardIsSound f (shard_at shard_height i) shard

module _ {ℓ} {S H C : Type ℓ} {E : Type 0} ⦃h : Hashable H⦄ (b : ShardStore S H C E)
    (shard_height : Level) (s : S) (f : ℕ → H) (truncate_at : Position) where
  shard_hash-Answered :
      (a : Address) (shard : Option (LocatedPrunableTree H))
      → Fits a
      → ShardIsSound f a shard
      → Answered f truncate_at a (shard_hash b shard_height s a truncate_at shard)
  unfolding located_root_hash ShardIsSound
  shard_hash-Answered a none fits st = (err (a ∷ []), refl, (tt, tt))
  shard_hash-Answered a (some t) fits (e, st) =
      subst (λ c. Answered f truncate_at a (root_hash t.root c truncate_at)) (sym e)
        (root_hash-Answered f truncate_at a t.root fits st)

  abbrev Next : ℕ → List ℕ → RootStack H → List Address → Result (List Address) H → Type ℓ
  Next i rest stack incomplete r =
      let next = collect_root b shard_height s stack incomplete (shard_at shard_height i) r in
      collect_roots b shard_height s (i ∷ rest) truncate_at stack incomplete
      ≡ collect_roots b shard_height s rest truncate_at next.0 next.1

  -- One round of the loop, at a shard with leaves before the position.
  collect_step :
      (i : ℕ) (rest : List ℕ) (stack : RootStack H) (incomplete : List Address)
      → leb truncate_at (position_range_start (shard_at shard_height i)) ≡ false
      → Fits (shard_at shard_height i)
      → Kept b shard_height s f i
      → (r : Result (List Address) H) × Next i rest stack incomplete r
        × Answers f truncate_at (shard_at shard_height i) r
  unfolding collect_roots
  collect_step i rest stack incomplete before fits (shard, e, st) =
      let (r, hashed, sr) = shard_hash-Answered (shard_at shard_height i) shard fits st in
      (r, elim-false before _ _ ∙ >>?-ok (ap (asked b shard_height s) e) _ ∙ >>=-some hashed _, sr)

  -- The loop has found the tree incomplete.
  abbrev pub Missing : Asked E (RootStack H × List Address) → Type ℓ
  Missing o =
      (stack : RootStack H) × (missing : List Address) × (o ≡ some (ok (stack, missing)))
      × NonEmpty missing

  -- What the loop gives behind a shard.
  abbrev after : ℕ → ℕ → RootStack H → List Address → Asked E (RootStack H × List Address)
  after first count stack incomplete =
      collect_roots b shard_height s (indices (suc first) count) truncate_at stack incomplete

  module _ (last : ℕ) (fits : (i : ℕ) → i < last → Fits (shard_at shard_height i)) where
    abbrev AllKept : ℕ → Type ℓ
    AllKept first = (i : ℕ) → first ≤ i → i < last → Kept b shard_height s f i

    collect-Missing :
        (first count : ℕ) (stack : RootStack H) (incomplete : List Address)
        → first + count ≡ last
        → AllKept first
        → NonEmpty incomplete
        → Missing
            (collect_roots b shard_height s (indices first count) truncate_at stack incomplete)
    unfolding indices collect_roots
    collect-Missing first zero stack incomplete total kept some_missing =
        (stack, incomplete, refl, some_missing)
    collect-Missing first (suc count) stack incomplete total kept some_missing =
        elim (Bool-cases (leb truncate_at (position_range_start (shard_at shard_height first)))) [
          | inl out ↦ (stack, incomplete, elim-true out _ _, some_missing)
          | inr before ↦
              let (r, e, sr) =
                collect_step first (indices (suc first) count) stack incomplete before
                  (fits first (omega arith)) (kept first (omega arith) (omega arith)) in
              subst Missing (sym e) (
                go r (λ next more ne.
                  collect-Missing (suc first) count next more (omega arith)
                    (λ i lo hi. kept i (omega arith) hi) ne))
        ]
      where
        go :
            (r : Result (List Address) H)
            → ((next : RootStack H) (more : List Address)
                → NonEmpty more
                → Missing (after first count next more))
            → (let next =
                  collect_root b shard_height s stack incomplete (shard_at shard_height first) r in
                Missing (after first count next.0 next.1))
        go (ok v) again =
            again (push_root stack (shard_at shard_height first) v) incomplete some_missing
        go (err more) again =
            again stack (incomplete ++ more) (NonEmpty-++ incomplete more some_missing)

    module _ (top : Address) (fits_top : Fits top)
        (spans : last * 2 ^ shard_height ≡ (top.index + 1) * 2 ^ top.level) where
      abbrev Done : Asked E (RootStack H × List Address) → Type ℓ
      Done o =
          ((stack : RootStack H) × (o ≡ some (ok (stack, [])))
            × (stack_root top.level stack ≡ value (truncated truncate_at f) top))
          ⊎ Missing o

      shard_end :
          (first : ℕ) (stack : RootStack H)
          → Stack (truncated truncate_at f) top (shard_at shard_height first) stack
          → position_range_end (shard_at shard_height first) ≡ (first + 1) * 2 ^ shard_height
      shard_end first stack st =
          end_eq (shard_at shard_height first) (
            Stack-Fits (truncated truncate_at f) top (shard_at shard_height first) stack fits_top
              st)

      ends_before :
          (first : ℕ) (stack : RootStack H)
          → Stack (truncated truncate_at f) top (shard_at shard_height first) stack
          → first < last
      ends_before first stack st = lt_of_mul-lt-mul_right (2 ^ shard_height) (
          omega (
            arith,
            shard_end first stack st,
            spans,
            end_eq top fits_top,
            Stack-end (truncated truncate_at f) top (shard_at shard_height first) stack fits_top st,
            pow_pos shard_height,
          ))

      only_last :
          (first count : ℕ)
          → first + suc count ≡ last
          → position_range_end (shard_at shard_height first) ≡ position_range_end top
          → count ≡ 0
      only_last first zero total ends = refl
      only_last first (suc count) total ends = absurd (
          omega (
            arith,
            ends,
            end_eq (shard_at shard_height first) (fits first (omega arith)),
            end_eq top fits_top,
            spans,
            mul-lt-mul_of_pos_right {m = first + 1} {n = last} {k = 2 ^ shard_height} (omega arith)
                (pow_pos shard_height),
          ))

      pub collect-Done :
          (first count : ℕ) (stack : RootStack H)
          → first + count ≡ last
          → AllKept first
          → Stack (truncated truncate_at f) top (shard_at shard_height first) stack
          → Done (collect_roots b shard_height s (indices first count) truncate_at stack [])
      unfolding indices collect_roots
      collect-Done first zero stack total kept st =
          absurd (omega (arith, ends_before first stack st))
      collect-Done first (suc count) stack total kept st =
          elim (Bool-cases (leb truncate_at (position_range_start (shard_at shard_height first)))) [
            | inl out ↦ inl (
              stack,
              elim-true out _ _,
              stack_root-value f truncate_at top (shard_at shard_height first) stack fits_top
                  (leb→le _ _ out) st,
            )
            | inr before ↦
                let (r, e, sr) =
                  collect_step first (indices (suc first) count) stack [] before
                    (fits first (omega arith)) (kept first (omega arith) (omega arith)) in
                subst Done (sym e) (
                  go r sr
                    (λ next next_st.
                      collect-Done (suc first) count next (omega arith)
                        (λ i lo hi. kept i (omega arith) hi) next_st)
                    (λ more ne.
                      collect-Missing (suc first) count stack more (omega arith)
                        (λ i lo hi. kept i (omega arith) hi) ne))
          ]
        where
          next_value : RootStack H
          next_value =
              push_root stack (shard_at shard_height first)
                (value (truncated truncate_at f) (shard_at shard_height first))

          pushed :
              Pushed (truncated truncate_at f) top (shard_at shard_height first) next_value
              → ((next : RootStack H)
                  → Stack (truncated truncate_at f) top (shard_at shard_height (suc first)) next
                  → Done (after first count next []))
              → Done (after first count next_value [])
          pushed (inl (e, ends)) again = inl (
            next_value,
            ap (λ k. after first k next_value []) (only_last first count total ends),
            ap (stack_root top.level) e ∙ stack_root-full f truncate_at top,
          )
          pushed (inr (n, level, index, next_st)) again = again next_value (
              subst (λ q. Stack (truncated truncate_at f) top q next_value)
                (ap₂ (λ (l j : ℕ). record { level = l; index = j }) level
                  (index ∙ (let up : first + 1 ≡ suc first = omega arith in up)))
                next_st)

          go :
              (r : Result (List Address) H)
              → Answers f truncate_at (shard_at shard_height first) r
              → ((next : RootStack H)
                  → Stack (truncated truncate_at f) top (shard_at shard_height (suc first)) next
                  → Done (after first count next []))
              → ((more : List Address) → NonEmpty more → Missing (after first count stack more))
              → (let next =
                    collect_root b shard_height s stack [] (shard_at shard_height first) r in
                  Done (after first count next.0 next.1))
          go (ok v) sv again failed =
              subst
                (λ w. Done (after first count (push_root stack (shard_at shard_height first) w) []))
                (sym sv)
                (pushed
                  (push_root-Pushed (truncated truncate_at f) top (shard_at shard_height first)
                    stack fits_top st)
                  again)
          go (err more) ne again failed = inr (failed more ne.0)
