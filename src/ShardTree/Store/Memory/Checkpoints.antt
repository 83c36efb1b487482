-- ===== src/ShardTree/Store/Memory/Checkpoints.antt =====
-- The checkpoints of a `MemoryShardStore` after `truncate_checkpoints_retaining`, and the keys that
-- two maps of checkpoints share while both change.
use Prim.Native.Nat.{Ordering, lt, eq, gt}
use incrementalmerkletree.Prelude.{
  Option, some, none, some_ne_none, fmap, ◌≡◌, ◌≢◌, refl, sym, ap, ◌∙◌, inl, inr,
}
use incrementalmerkletree.OrderedMap.{
  Ord, OrderedMap, get, insert, remove, before, from_key, IsSorted,
}
use incrementalmerkletree.OrderedMap.Laws.{
  below, same, above, compared, compare_lt_ne, compare_gt_ne, get-insert_same, get-insert_other,
  get-remove_same, get-remove_other, get-before-lt, get-before_ge, get-from_key,
}
use incrementalmerkletree.OrderedMap.Ext.{HasKeysOf}
use incrementalmerkletree.ShardTree.Store.{Checkpoint, clear_marks_removed}
use incrementalmerkletree.ShardTree.Store.Memory.{reinsert}

fmap-none : (c : Option Checkpoint) → fmap clear_marks_removed c ≡ none → c ≡ none
fmap-none none e = refl
fmap-none (some c) e = cc

module _ {κ} {C : Type κ} ⦃o : Ord C⦄ where
  abbrev pub truncated : C → OrderedMap C Checkpoint → OrderedMap C Checkpoint
  truncated id m = reinsert id (get id (from_key id m)) (before id m)

  -- Earlier checkpoints stay, the one at the key loses its marks, later ones go.
  unfoldable pub kept_of : Ordering → C → C → OrderedMap C Checkpoint → Option Checkpoint
  kept_of lt id x m = get x m
  kept_of eq id x m = fmap clear_marks_removed (get id m)
  kept_of gt id x m = none

  unfoldable pub retained : C → C → OrderedMap C Checkpoint → Option Checkpoint
  unfolding kept_of
  retained id x m = kept_of (o.compare x id) id x m

  retained-kept_of :
      {x id : C} {c : Ordering} (m : OrderedMap C Checkpoint)
      → o.compare x id ≡ c
      → retained id x m ≡ kept_of c id x m
  unfolding retained
  retained-kept_of {x = x} {id = id} m e = ap (λ c. kept_of c id x m) e

  get-reinsert :
      (id x : C) (m : OrderedMap C Checkpoint) (c : Option Checkpoint)
      → get id m ≡ c
      → get x (reinsert id c (before id m)) ≡ retained id x m
  unfolding kept_of
  get-reinsert id x m none e = elim (compared x id) [
    | below l _ ↦ get-before-lt m l ∙ sym (retained-kept_of m l)
    | same p l _ ↦
        get-before_ge m (inr (sym p)) ∙ sym (retained-kept_of m l ∙ ap (fmap clear_marks_removed) e)
    | above l k ↦ get-before_ge m (inl k) ∙ sym (retained-kept_of m l)
  ]
  get-reinsert id x m (some c) e = elim (compared x id) [
    | below l _ ↦
        get-insert_other (clear_marks_removed c) (before id m) (compare_lt_ne l)
        ∙ get-before-lt m l
        ∙ sym (retained-kept_of m l)
    | same p l _ ↦
        ap (λ k. get k (insert id (clear_marks_removed c) (before id m))) p
        ∙ get-insert_same id (clear_marks_removed c) (before id m)
        ∙ sym (retained-kept_of m l ∙ ap (fmap clear_marks_removed) e)
    | above l k ↦
        get-insert_other (clear_marks_removed c) (before id m) (compare_gt_ne l)
        ∙ get-before_ge m (inl k)
        ∙ sym (retained-kept_of m l)
  ]

  pub get-truncated :
      (id x : C) (m : OrderedMap C Checkpoint) → get x (truncated id m) ≡ retained id x m
  get-truncated id x m = get-reinsert id x m (get id (from_key id m)) (sym (get-from_key id m))

  pub insert-HasKeysOf :
      (id : C) (c : Checkpoint) (es m : OrderedMap C Checkpoint)
      → HasKeysOf es m
      → HasKeysOf (insert id c es) m
  unfolding HasKeysOf
  insert-HasKeysOf id c es m h k e = elim (compared k id) [
    | below l _ ↦ h k (sym (get-insert_other c es (compare_lt_ne l)) ∙ e)
    | above l _ ↦ h k (sym (get-insert_other c es (compare_gt_ne l)) ∙ e)
    | same p _ _ ↦ absurd (
        some_ne_none (sym (get-insert_same id c es) ∙ ap (λ x. get x (insert id c es)) (sym p) ∙ e))
  ]

  pub remove-HasKeysOf :
      (id : C) (es m : OrderedMap C Checkpoint)
      → IsSorted es
      → IsSorted m
      → HasKeysOf es m
      → HasKeysOf (remove id es) (remove id m)
  unfolding HasKeysOf
  remove-HasKeysOf id es m s t h k e = elim (compared k id) [
    | below l _ ↦ other (compare_lt_ne l)
    | above l _ ↦ other (compare_gt_ne l)
    | same p _ _ ↦ ap (λ x. get x (remove id m)) p ∙ get-remove_same id m t
  ]
    where
      other : k ≢ id → get k (remove id m) ≡ none
      other ne = get-remove_other m t ne ∙ h k (sym (get-remove_other es s ne) ∙ e)

  pub truncated-HasKeysOf :
      (id : C) (es m : OrderedMap C Checkpoint)
      → HasKeysOf es m
      → HasKeysOf (truncated id es) (truncated id m)
  unfolding HasKeysOf kept_of
  truncated-HasKeysOf id es m h k e = get-truncated id k m ∙ kept (sym (get-truncated id k es) ∙ e)
    where
      kept : retained id k es ≡ none → retained id k m ≡ none
      kept e = elim (compared k id) [
        | below l _ ↦ retained-kept_of m l ∙ h k (sym (retained-kept_of es l) ∙ e)
        | same p l _ ↦
            retained-kept_of m l
            ∙ ap (fmap clear_marks_removed)
                (h id (fmap-none (get id es) (sym (retained-kept_of es l) ∙ e)))
        | above l _ ↦ retained-kept_of m l
      ]
