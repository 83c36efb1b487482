-- ===== src/ShardTree/Prunable/Sound/Witness.antt =====
-- `LocatedPrunableTree::witness` on trees that stand for a sequence of leaves.
use incrementalmerkletree.Prelude.{
  ℕ, suc, ◌+◌, ◌-◌, ◌*◌, ◌/◌, ◌%◌, ◌^◌, ◌≤◌, ◌<◌, ◌≡◌, ◌⊎◌, refl, arith, Option, some, none, leb,
  leb→le, le→leb, ltb, ltb→lt, lt→ltb, ap, ap₂, sym, ◌∙◌, Bool-cases, inl, inr, Result, ok, err,
  List, [], ◌∷◌, ◌++◌, >>=-some, fmap, map_err, length, div_pow_zero, elim-true, elim-false,
}
use incrementalmerkletree.Position.{Position, is_right_child}
use incrementalmerkletree.Position
use incrementalmerkletree.Position.Digits.{is_right_child_iff}
use incrementalmerkletree.Address.{
  Address, position_range_start, position_range_end, position_range, in_range,
}
use incrementalmerkletree.Address.Shape.{Fits, start_eq, end_eq, shifted_iff}
use incrementalmerkletree.Address.Family.{
  left_of, right_of, left-Fits, right-Fits, children_eq, start-left, end-left, end-right,
}
use incrementalmerkletree.Hashable.{Hashable, MerklePath, empty_root}
use incrementalmerkletree.Hashable
use incrementalmerkletree.Hashable.Node.{node, node_empty}
use incrementalmerkletree.Hashable.Path.{
  siblings, sibling_node, root-siblings-node, length-siblings,
}
use incrementalmerkletree.ShardTree.Tree.{parent, leaf, nil}
use incrementalmerkletree.ShardTree.Prunable.{
  PrunableTree, accumulate_result_with, is_marked_leaf, leaf_value,
}
use incrementalmerkletree.ShardTree.Prunable.Located.{
  LocatedPrunableTree, QueryError, witness, witness_from, witness_pair, push_sibling,
}
use incrementalmerkletree.ShardTree.Prunable.Sound.{
  value, IsSound, truncated, value-truncated_left, value-truncated_right,
}
use incrementalmerkletree.ShardTree.Prunable.Sound.RootHash.{root_hash-Answered, Answers}
use incrementalmerkletree.ShardTree.Prunable.Sound.Siblings.{
  one_level, ltb-false, leb-false, add_one, start_one, end_one, middle_one, siblings_snoc,
  sibling_even, sibling_odd,
}

module _ {ℓ} {H : Type ℓ} ⦃h : Hashable H⦄ (f : ℕ → H) (truncate_at : ℕ) (p : Position) where
  abbrev truncated_leaves : ℕ → H
  truncated_leaves = truncated truncate_at f

  -- A path, if one is returned, consists of the siblings on the way to the node.
  abbrev PathAnswers : Address → Result (List Address) (List H) → Type ℓ
  PathAnswers a (ok path) = path ≡ siblings truncated_leaves a.level 0 p
  PathAnswers a (err missing) = Unit

  -- The position is below the node.
  abbrev Below : Address → Type 0
  Below a = (position_range_start a ≤ p) × (p < position_range_end a)

  Below-index : (a : Address) → Fits a → Below a → p / 2 ^ a.level ≡ a.index
  Below-index a fits (lo, hi) =
      (shifted_iff a.index p a.level).1
        (omega (arith, start_eq a fits), omega (arith, end_eq a fits))

  -- The siblings up to a node, from those up to its child.
  siblings_up :
      (a : Address) (path : List H) (v : H)
      → 0 < a.level
      → path ≡ siblings truncated_leaves (a.level - 1) 0 p
      → v ≡ sibling_node truncated_leaves (a.level - 1) (p / 2 ^ (a.level - 1))
      → path ++ v ∷ [] ≡ siblings truncated_leaves a.level 0 p
  siblings_up a path v pos below is_value =
      let up : suc (a.level - 1) ≡ a.level = omega arith in
      let here : a.level - 1 ≡ 0 + (a.level - 1) = omega arith in
      ap₂ (λ es w. es ++ w ∷ []) below
        (is_value ∙ ap (λ k. sibling_node truncated_leaves k (p / 2 ^ (a.level - 1))) here)
      ∙ sym (siblings_snoc truncated_leaves (a.level - 1) 0 p)
      ∙ ap (λ k. siblings truncated_leaves k 0 p) up

  push_left :
      (a : Address) (w : Result (List Address) (List H)) (s : Result (List Address) H)
      → Fits a
      → 0 < a.level
      → Below (left_of a)
      → PathAnswers (left_of a) w
      → Answers f truncate_at (right_of a) s
      → PathAnswers a (accumulate_result_with w s push_sibling)
  unfolding accumulate_result_with
  push_left a (ok path) (ok v) fits pos below sw sv = siblings_up a path v pos sw (
      sv
      ∙ sym (
          sibling_even truncated_leaves (a.level - 1) (p / 2 ^ (a.level - 1)) a.index
            (Below-index (left_of a) (left-Fits a fits pos) below)))
  push_left a (ok path) (err vs) fits pos below sw sv = tt
  push_left a (err ws) (ok v) fits pos below sw sv = tt
  push_left a (err ws) (err vs) fits pos below sw sv = tt

  push_right :
      (a : Address) (s : Result (List Address) H) (w : Result (List Address) (List H))
      → Fits a
      → 0 < a.level
      → p < truncate_at
      → Below (right_of a)
      → Answers f (position_range_start (right_of a)) (left_of a) s
      → PathAnswers (right_of a) w
      → PathAnswers a (accumulate_result_with s w (λ s w. push_sibling w s))
  unfolding accumulate_result_with
  push_right a (ok v) (ok path) fits pos kept below sv sw =
      let split = end-left a fits pos in
      let same =
        value-truncated_left f (left_of a) (position_range_start (right_of a))
          (left-Fits a fits pos) (omega arith)
        ∙ sym (
            value-truncated_left f (left_of a) truncate_at (left-Fits a fits pos)
              (omega (arith, below.0))) in
      siblings_up a path v pos sw (
        sv
        ∙ same
        ∙ sym (
            sibling_odd truncated_leaves (a.level - 1) (p / 2 ^ (a.level - 1)) a.index
              (Below-index (right_of a) (right-Fits a fits pos) below)))
  push_right a (ok v) (err ws) fits pos kept below sv sw = tt
  push_right a (err vs) (ok path) fits pos kept below sv sw = tt
  push_right a (err vs) (err ws) fits pos kept below sv sw = tt

  -- The value of a left sibling does not depend on the truncation.
  left_value :
      (a : Address)
      → Fits a
      → 0 < a.level
      → position_range_start (right_of a) ≤ p
      → p < truncate_at
      → value f (left_of a) ≡ value truncated_leaves (left_of a)
  left_value a fits pos right kept = sym (
      value-truncated_left f (left_of a) truncate_at (left-Fits a fits pos)
        (omega (arith, end-left a fits pos)))

  leaf_value_lem :
      (b : Address) (t : PrunableTree H) (v : H)
      → IsSound f b t
      → leaf_value t ≡ some v
      → v ≡ value f b
  unfolding leaf_value
  leaf_value_lem b (parent ann l r) v s e = let bad : none ≡ some v = e in absurd cc
  leaf_value_lem b nil v s e = let bad : none ≡ some v = e in absurd cc
  leaf_value_lem b (leaf (w, flags)) v s e = let same : v ≡ w = cc in same ∙ s

  empty_right :
      (a : Address)
      → Fits a
      → a.level ≡ 1
      → truncate_at ≤ 2 * a.index + 1
      → h.empty_leaf ≡ value truncated_leaves (right_of a)
  empty_right a fits one le =
      let pos : 0 < a.level = omega arith in
      let level : 0 ≡ a.level - 1 = omega arith in
      node_empty 0 0
      ∙ ap (λ k. empty_root k) level
      ∙ sym (
          value-truncated_right f (right_of a) truncate_at (right-Fits a fits pos)
            (omega (arith, middle_one a fits one)))

  -- A leaf as the only sibling.
  pick-PathAnswers :
      (a : Address) (o : Option H) (missing : List Address)
      → ((v : H) → o ≡ some v → v ∷ [] ≡ siblings truncated_leaves a.level 0 p)
      → PathAnswers a (elim o [ some v ↦ ok (v ∷ []) | none ↦ err missing ])
  pick-PathAnswers a none missing found = tt
  pick-PathAnswers a (some v) missing found = found v refl

  -- The two leaves of a parent on level 1.
  pair-PathAnswers :
      (a : Address) (l r : PrunableTree H)
      → Fits a
      → a.level ≡ 1
      → p < truncate_at
      → Below a
      → IsSound f (left_of a) l
      → IsSound f (right_of a) r
      → PathAnswers a (witness_pair l r (left_of a) (right_of a) p truncate_at)
  unfolding witness_pair
  pair-PathAnswers a l r fits one kept below sl sr =
      let pos : 0 < a.level = omega arith in
      let whole : p / 2 ^ (a.level - 1) ≡ p = ap (λ k. p / 2 ^ (k - 1)) one ∙ div_pow_zero p in
      let start = start_one a fits one in
      let end = end_one a fits one in
      let middle = middle_one a fits one in
      let next : Position.add p 1 ≡ p + 1 =
        add_one p (omega (arith, below.1, end, fits.leaves, ap (λ k. (a.index + 1) * 2 ^ k) one)) in
      let bottom : [] ≡ siblings truncated_leaves (a.level - 1) 0 p =
        unfold siblings in ap (λ k. siblings truncated_leaves (k - 1) 0 p) (sym one) in
      let sides = is_right_child_iff p in
      elim (Bool-cases (is_right_child p)) [
        | inl odd ↦
            let digit = sides.0 odd in
            elim (Bool-cases (is_marked_leaf r)) [
              | inl marked ↦
                  rw (odd, marked)
                    (pick-PathAnswers a (leaf_value l) (left_of a ∷ []) (λ v e.
                      siblings_up a [] v pos bottom (
                        leaf_value_lem (left_of a) l v sl e
                        ∙ left_value a fits pos (omega (arith, below.0, below.1)) kept
                        ∙ sym (
                            sibling_odd truncated_leaves (a.level - 1) (p / 2 ^ (a.level - 1))
                              a.index (omega (arith, below.0, below.1))))))
              | inr unmarked ↦ rw (odd, unmarked) tt
            ]
        | inr even ↦
            let digit : p % 2 ≡ 0 = ground (arith, sides.1) in
            let at_left = sym (
              sibling_even truncated_leaves (a.level - 1) (p / 2 ^ (a.level - 1)) a.index
                (omega (arith, below.0, below.1))) in
            elim (Bool-cases (is_marked_leaf l)) [
              | inl marked ↦
                  rw (even, marked)
                    (elim (Bool-cases (leb truncate_at (Position.add p 1))) [
                      | inl edge ↦ rw edge (
                          siblings_up a [] h.empty_leaf pos bottom (
                            empty_right a fits one (omega (arith, below.0, leb→le _ _ edge))
                            ∙ at_left))
                      | inr inside ↦ rw inside (
                          pick-PathAnswers a (leaf_value r) (right_of a ∷ []) (λ v e.
                            siblings_up a [] v pos bottom (
                              leaf_value_lem (right_of a) r v sr e
                              ∙ sym (
                                  value-truncated_left f (right_of a) truncate_at
                                    (right-Fits a fits pos)
                                    (omega (
                                      arith,
                                      below.0,
                                      below.1,
                                      end-right a fits pos,
                                      leb-false _ _ inside,
                                    )))
                              ∙ at_left)))
                    ])
              | inr unmarked ↦ rw (even, unmarked) tt
            ]
      ]

  witness_from-PathAnswers :
      (a : Address) (t : PrunableTree H)
      → Fits a
      → p < truncate_at
      → Below a
      → IsSound f a t
      → (r : Result (List Address) (List H)) × (witness_from t a p truncate_at ≡ some r)
        × PathAnswers a r
  unfolding witness_from
  witness_from-PathAnswers a nil fits kept below s = (err (a ∷ []), refl, tt)
  witness_from-PathAnswers a (leaf v) fits kept below s = (err (a ∷ []), refl, tt)
  witness_from-PathAnswers a (parent ann l r) fits kept below s =
      elim (Bool-cases (ltb 1 a.level)) [
        | inr low ↦ (
          witness_pair l r (left_of a) (right_of a) p truncate_at,
          >>=-some (children_eq a fits s.0) _ ∙ elim-false low _ _,
          pair-PathAnswers a l r fits (one_level low s.0) kept below s.2 s.3,
        )
        | inl high ↦ elim (Bool-cases (ltb p (position_range_start (right_of a)))) [
          | inl left ↦
              let half : Below (left_of a) = (
                omega (arith, below.0, start-left a fits s.0),
                omega (arith, ltb→lt _ _ left, end-left a fits s.0),
              ) in
              let (w, ew, sw) =
                witness_from-PathAnswers (left_of a) l (left-Fits a fits s.0) kept half s.2 in
              let (v, ev, sv) =
                root_hash-Answered f truncate_at (right_of a) r (right-Fits a fits s.0) s.3 in
              (
                accumulate_result_with w v push_sibling,
                >>=-some (children_eq a fits s.0) _
                    ∙ elim-true high _ _
                    ∙ elim-true left _ _
                    ∙ >>=-some ew _
                    ∙ >>=-some ev _,
                push_left a w v fits s.0 half sw sv,
              )
          | inr right ↦
              let start = ltb-false p (position_range_start (right_of a)) right in
              let half : Below (right_of a) =
                (start, omega (arith, below.1, end-right a fits s.0)) in
              let (v, ev, sv) =
                root_hash-Answered f (position_range_start (right_of a)) (left_of a) l
                  (left-Fits a fits s.0) s.2 in
              let (w, ew, sw) =
                witness_from-PathAnswers (right_of a) r (right-Fits a fits s.0) kept half s.3 in
              (
                accumulate_result_with v w (λ s w. push_sibling w s),
                >>=-some (children_eq a fits s.0) _
                    ∙ elim-true high _ _
                    ∙ elim-false right _ _
                    ∙ >>=-some ev _
                    ∙ >>=-some ew _,
                push_right a v w fits s.0 kept half sv sw,
              )
        ]
      ]

  abbrev pub Authenticates : Address → List H → Type ℓ
  Authenticates a path =
      (length path ≡ a.level)
      × (Hashable.root (record { path_elems = path; position = p }) (f p)
          ≡ value truncated_leaves a)

  answer :
      (a : Address) (path : List H)
      → Fits a
      → p < truncate_at
      → Below a
      → path ≡ siblings truncated_leaves a.level 0 p
      → Authenticates a path
  answer a path fits kept below same =
      let leaf : f p ≡ truncated_leaves p = rw (lt→ltb p truncate_at kept) refl in
      (
        ap length same ∙ length-siblings truncated_leaves a.level 0 p,
        ap₂ (λ v es. Hashable.root (record { path_elems = es; position = p }) v) leaf same
            ∙ root-siblings-node truncated_leaves p a.level (omega (arith, fits.levels))
            ∙ ap (node truncated_leaves a.level) (Below-index a fits below),
      )

module _ {ℓ} {H : Type ℓ} ⦃h : Hashable H⦄ where
  within_range :
      (t : LocatedPrunableTree H) (p truncate_at : Position)
      → position_range_start t.root_addr ≤ p
      → p < position_range_end t.root_addr
      → witness t p truncate_at
        ≡ fmap (map_err QueryError.tree_incomplete) (witness_from t.root t.root_addr p truncate_at)
  unfolding witness in_range position_range
  within_range t p truncate_at lo hi = rw (le→leb _ _ lo, lt→ltb _ _ hi) refl

  -- For a prunable tree over addresses of 64 bits whose leaves and cached roots are those of a
  -- sequence of leaves, and a position below the tree and before the truncation point, witness
  -- does not panic: it returns a path of the tree's height that leads from the leaf to the
  -- root of the truncated leaves, or an error.
  pub witness_sound :
      (f : ℕ → H) (t : LocatedPrunableTree H) (p truncate_at : Position)
      → Fits t.root_addr
      → IsSound f t.root_addr t.root
      → position_range_start t.root_addr ≤ p
      → p < position_range_end t.root_addr
      → p < truncate_at
      → ((path : List H) × (witness t p truncate_at ≡ some (ok path))
          × ((length path ≡ t.root_addr.level)
              × (Hashable.root (record { path_elems = path; position = p }) (f p)
                  ≡ value (truncated truncate_at f) t.root_addr)))
        ⊎ ((missing : List Address) × (witness t p truncate_at
              ≡ some (err (QueryError.tree_incomplete missing))))
  witness_sound f t p truncate_at fits s lo hi kept =
      let (r, e, answers) =
        witness_from-PathAnswers f truncate_at p t.root_addr t.root fits kept (lo, hi) s in
      decide r
        (within_range t p truncate_at lo hi ∙ ap (fmap (map_err QueryError.tree_incomplete)) e)
        answers
    where
      decide :
          (r : Result (List Address) (List H))
          → witness t p truncate_at ≡ some (map_err QueryError.tree_incomplete r)
          → PathAnswers f truncate_at p t.root_addr r
          → ((path : List H) × (witness t p truncate_at ≡ some (ok path))
              × Authenticates f truncate_at p t.root_addr path)
            ⊎ ((missing : List Address) × (witness t p truncate_at
                  ≡ some (err (QueryError.tree_incomplete missing))))
      decide (ok path) found same =
          inl (path, found, answer f truncate_at p t.root_addr path fits kept (lo, hi) same)
      decide (err missing) found same = inr (missing, found)
