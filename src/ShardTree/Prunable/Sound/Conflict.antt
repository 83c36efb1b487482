-- ===== src/ShardTree/Prunable/Sound/Conflict.antt =====
-- `PrunableTree::merge_checked` on trees of different roots.
use incrementalmerkletree.Prelude.{
  ℕ, ◌≡◌, ◌≢◌, refl, arith, Option, some, ap, sym, ◌∙◌, Bool, true, false, Bool-cases, inl, inr,
  Result, ok, err, List, [], ◌∷◌, >>=-some, leb, le→leb, pow_pos,
}
use incrementalmerkletree.Address.{Address, position_range_start, position_range_end}
use incrementalmerkletree.Address.Shape.{Fits, start_eq, end_eq}
use incrementalmerkletree.Hashable.{Hashable}
use incrementalmerkletree.ShardTree.Tree.{parent, leaf, nil}
use incrementalmerkletree.ShardTree.Prunable.{
  PrunableTree, Eq, root_hash, merge_checked, MergeError, annotate_by_leaf, or_conflict,
}

-- A node has leaves.
leaves_ahead : (a : Address) → Fits a → leb (position_range_end a) (position_range_start a) ≡ false
leaves_ahead a fits = ground (arith, start_eq a fits, end_eq a fits, pow_pos a.level)

module _ {ℓ} {H : Type ℓ} ⦃h : Hashable H⦄ ⦃e : Eq H⦄ where
  beq-false : (v w : H) → v ≢ w → e.beq v w ≡ false
  beq-false v w ne = elim (Bool-cases (e.beq v w)) [
    | inl same ↦ absurd (ne ((e.beq_iff v w).0 same))
    | inr other ↦ other
  ]

  -- The root of a leaf is its value.
  leaf_root :
      (a : Address) (v w : H) (flags : ℕ)
      → Fits a
      → root_hash (leaf (v, flags)) a (position_range_end a) ≡ some (ok w)
      → v ≡ w
  unfolding root_hash
  leaf_root a v w flags fits root =
      let ends : leb (position_range_end a) (position_range_end a) ≡ true =
        le→leb _ _ (omega arith) in
      let computed : root_hash (leaf (v, flags)) a (position_range_end a) ≡ some (ok v) =
        rw (leaves_ahead a fits, ends) refl in
      cc

  ok_ne_err : (w : H) (missing : List Address) → some (ok w) ≡ some (err missing) → ⊥
  ok_ne_err w missing same = cc

  nil_root :
      (a : Address) (w : H) → Fits a → root_hash nil a (position_range_end a) ≡ some (ok w) → ⊥
  unfolding root_hash
  nil_root a w fits root = ok_ne_err w (a ∷ []) (sym root ∙ nil_err)
    where
      nil_err : root_hash {H = H} nil a (position_range_end a) ≡ some (err (a ∷ []))
      nil_err = rw (leaves_ahead a fits) refl

  refused :
      (a : Address) {b : Bool}
      → b ≡ false
      → (m : Option (Result MergeError (PrunableTree H)))
      → or_conflict a b m ≡ some (err (MergeError.conflict a))
  refused a other m = ap (λ b. or_conflict a b m) other

  annotate_conflict :
      (a : Address) (t : PrunableTree H) (v w : H)
      → root_hash t a (position_range_end a) ≡ some (ok w)
      → w ≢ v
      → annotate_by_leaf a t v ≡ some (err (MergeError.conflict a))
  annotate_conflict a t v w root ne = rw (root, beq-false w v ne) refl

  -- Two trees at an address of 64 bits whose roots can be computed and differ are not merged:
  -- the result is the error of a conflict at the address.
  pub merge_checked-conflict :
      (a : Address) (s t : PrunableTree H) (v w : H)
      → Fits a
      → root_hash s a (position_range_end a) ≡ some (ok v)
      → root_hash t a (position_range_end a) ≡ some (ok w)
      → v ≢ w
      → merge_checked a s t ≡ some (err (MergeError.conflict a))
  unfolding merge_checked
  merge_checked-conflict a nil t v w fits root_s root_t ne = absurd (nil_root a v fits root_s)
  merge_checked-conflict a (leaf x) nil v w fits root_s root_t ne =
      absurd (nil_root a w fits root_t)
  merge_checked-conflict a (parent ann l r) nil v w fits root_s root_t ne =
      absurd (nil_root a w fits root_t)
  merge_checked-conflict a (leaf (lv, lf)) (leaf (rv, rf)) v w fits root_s root_t ne =
      let differ : lv ≢ rv = (λ same.
        ne (sym (leaf_root a lv v lf fits root_s) ∙ same ∙ leaf_root a rv w rf fits root_t)) in
      rw (beq-false lv rv differ) refl
  merge_checked-conflict a (leaf (x, flags)) (parent ann l r) v w fits root_s root_t ne =
      annotate_conflict a (parent ann l r) x w root_t
        (λ same. ne (sym (leaf_root a x v flags fits root_s) ∙ sym same))
  merge_checked-conflict a (parent ann l r) (leaf (x, flags)) v w fits root_s root_t ne =
      annotate_conflict a (parent ann l r) x v root_s
        (λ same. ne (same ∙ leaf_root a x w flags fits root_t))
  merge_checked-conflict a (parent lann ll lr) (parent rann rl rr) v w fits root_s root_t ne =
      >>=-some root_s _ ∙ >>=-some root_t _ ∙ refused a (beq-false v w ne) _
