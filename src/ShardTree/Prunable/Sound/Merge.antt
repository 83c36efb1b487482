-- ===== src/ShardTree/Prunable/Sound/Merge.antt =====
-- `PrunableTree::merge_checked` on trees that stand for the same leaves.
use incrementalmerkletree.Prelude.{
  ℕ, ◌-◌, ◌≡◌, refl, arith, Option, some, none, ap, sym, ◌∙◌, ◌⊎◌, ◌↔◌, Bool, true, Result, ok, err,
  List, >>=-some, >>?-ok, or_else, bit_or, to_option,
}
use incrementalmerkletree.Address.{Address, position_range_end}
use incrementalmerkletree.Address.Shape.{Fits}
use incrementalmerkletree.Address.Family.{left_of, right_of, left-Fits, right-Fits, children_eq}
use incrementalmerkletree.Hashable.{Hashable}
use incrementalmerkletree.ShardTree.Tree.{parent, leaf, nil, reannotate_root}
use incrementalmerkletree.ShardTree.Prunable.{
  PrunableTree, Eq, merge_checked, unite, MergeError, agrees, both_agree, annotate_by_leaf,
  or_conflict, at_children,
}
use incrementalmerkletree.ShardTree.Prunable.Sound.{
  value, IsSound, CachedIsSound, value-truncated_left, unite-IsSound, reannotate_root-IsSound,
}
use incrementalmerkletree.ShardTree.Prunable.Sound.RootHash.{root_hash-Answered, Answers}
use incrementalmerkletree.ShardTree.Flags.{RetentionFlags}
use incrementalmerkletree.ShardTree.Prunable.Sound.Marked.{
  HasMarked, is_marked-or, leaf_above, only_left, only_right, in_both, unite-HasMarked,
  reannotate_root-HasMarked,
}

module _ {ℓ} {H : Type ℓ} ⦃h : Hashable H⦄ ⦃e : Eq H⦄ (f : ℕ → H) (q : ℕ) where
  abbrev no_fill : Address → ℕ
  no_fill a = position_range_end a

  or_conflict-true :
      (a : Address) {b : Bool}
      → b ≡ true
      → (m : Option (Result MergeError (PrunableTree H))) → or_conflict a b m ≡ m
  or_conflict-true a same m = ap (λ b. or_conflict a b m) same

  at_children-some :
      (a : Address) {c : Option (Address × Address)} {l r : Address}
      → c ≡ some (l, r)
      → (g : Address → Address → Option (Result MergeError (PrunableTree H)))
      → at_children a c g ≡ g l r
  at_children-some a split g = ap (λ c. at_children a c g) split

  -- A root computed over the whole range is the value of the node.
  whole_root :
      (a : Address) (r : Result (List Address) H)
      → Fits a
      → Answers f (no_fill a) a r
      → (v : H) → v ≡ value f a
      → agrees r v ≡ true
  whole_root a (ok w) fits s v is_value =
      (e.beq_iff w v).1 (s ∙ value-truncated_left f a (no_fill a) fits (omega arith) ∙ sym is_value)
  whole_root a (err missing) fits s v is_value = refl

  annotate_by_leaf-IsSound :
      (a : Address) (t : PrunableTree H) (v : H)
      → Fits a
      → IsSound f a t
      → v ≡ value f a
      → (m : PrunableTree H) × (annotate_by_leaf a t v ≡ some (ok m))
        × IsSound f a m
        × (HasMarked q a m ↔ HasMarked q a t)
  annotate_by_leaf-IsSound a t v fits s is_value =
      let (r, er, sr) = root_hash-Answered f (no_fill a) a t fits s in
      (
        reannotate_root t (some v),
        rw (er, whole_root a r fits sr v is_value) refl,
        reannotate_root-IsSound f a t (some v) is_value s,
        reannotate_root-HasMarked q a t (some v),
      )

  roots_agree :
      (a : Address) (l r : Result (List Address) H)
      → Fits a
      → Answers f (no_fill a) a l
      → Answers f (no_fill a) a r
      → both_agree (to_option l) (to_option r) ≡ true
  roots_agree a (ok v) (ok w) fits sl sr = (e.beq_iff v w).1 (sl ∙ sym sr)
  roots_agree a (ok v) (err ws) fits sl sr = refl
  roots_agree a (err vs) (ok w) fits sl sr = refl
  roots_agree a (err vs) (err ws) fits sl sr = refl

  or_else-CachedIsSound :
      (a : Address) (x y : Option H)
      → CachedIsSound f a x
      → CachedIsSound f a y
      → CachedIsSound f a (or_else x y)
  or_else-CachedIsSound a none y sx sy = sy
  or_else-CachedIsSound a (some v) y sx sy = sx

  leaf_or :
      (a : Address) (v w : H) (x y : RetentionFlags)
      → HasMarked q a (leaf (v, bit_or x y))
        ↔ (HasMarked q a (leaf (v, x)) ⊎ HasMarked q a (leaf (w, y)))
  leaf_or a v w x y = let m = is_marked-or x y in ground arith

  -- Merging two trees at an address of 64 bits that stand for the same leaves neither fails
  -- nor panics, and gives a tree that stands for these leaves, in which a leaf of level 0 is
  -- marked at exactly the positions where one of the two trees has a marked one.
  pub merge_checked-IsSound :
      (a : Address) (s t : PrunableTree H)
      → Fits a
      → IsSound f a s
      → IsSound f a t
      → (m : PrunableTree H) × (merge_checked a s t ≡ some (ok m))
        × IsSound f a m
        × (HasMarked q a m ↔ (HasMarked q a s ⊎ HasMarked q a t))
  unfolding merge_checked
  merge_checked-IsSound a nil t fits hs ht = (t, refl, ht, only_right (λ m. m) ((λ m. m), (λ m. m)))
  merge_checked-IsSound a (leaf v) nil fits hs ht =
      (leaf v, refl, hs, only_left (λ m. m) ((λ m. m), (λ m. m)))
  merge_checked-IsSound a (parent ann l r) nil fits hs ht =
      (parent ann l r, refl, hs, only_left (λ m. m) ((λ m. m), (λ m. m)))
  merge_checked-IsSound a (leaf (lv, lf)) (leaf (rv, rf)) fits hs ht = (
    leaf (lv, bit_or lf rf),
    rw ((e.beq_iff lv rv).1 (hs ∙ sym ht)) refl,
    hs,
    leaf_or a lv rv lf rf,
  )
  merge_checked-IsSound a (leaf (v, flags)) (parent ann l r) fits hs ht =
      let (m, merged, sound, kept) = annotate_by_leaf-IsSound a (parent ann l r) v fits ht hs in
      (m, merged, sound, only_right (leaf_above q a (v, flags) ht.0) kept)
  merge_checked-IsSound a (parent ann l r) (leaf (v, flags)) fits hs ht =
      let (m, merged, sound, kept) = annotate_by_leaf-IsSound a (parent ann l r) v fits hs ht in
      (m, merged, sound, only_left (leaf_above q a (v, flags) hs.0) kept)
  merge_checked-IsSound a (parent lann ll lr) (parent rann rl rr) fits hs ht =
      let (x, ex, sx) = root_hash-Answered f (no_fill a) a (parent lann ll lr) fits hs in
      let (y, ey, sy) = root_hash-Answered f (no_fill a) a (parent rann rl rr) fits ht in
      let (l, el, sl, kl) =
        merge_checked-IsSound (left_of a) ll rl (left-Fits a fits hs.0) hs.2 ht.2 in
      let (r, er, sr, kr) =
        merge_checked-IsSound (right_of a) lr rr (right-Fits a fits hs.0) hs.3 ht.3 in
      (
        unite (a.level - 1) (or_else lann rann) l r,
        >>=-some ex _
            ∙ >>=-some ey _
            ∙ or_conflict-true a (roots_agree a x y fits sx sy) _
            ∙ at_children-some a (children_eq a fits hs.0) _
            ∙ >>?-ok el _
            ∙ >>?-ok er _,
        unite-IsSound f a (or_else lann rann) l r hs.0 (or_else-CachedIsSound a lann rann hs.1 ht.1)
            sl sr,
        in_both (unite-HasMarked q a (or_else lann rann) l r hs.0) kl kr,
      )
