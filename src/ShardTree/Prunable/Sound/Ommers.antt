-- ===== src/ShardTree/Prunable/Sound/Ommers.antt =====
-- `frontier` and `frontier_ommers` on trees that stand for a sequence of leaves.
use incrementalmerkletree.Prelude.{
  ℕ, zero, suc, ◌+◌, ◌-◌, ◌*◌, ◌/◌, ◌%◌, ◌^◌, ◌≤◌, ◌<◌, true, ◌≡◌, ◌⊎◌, refl, arith, Option, some,
  none, ◌==◌, ap, ap₂, sym, ◌∙◌, Bool-cases, inl, inr, Result, ok, err, List, [], ◌∷◌, ◌++◌, ◌>>?◌,
  >>?-ok, >>?-err, fmap, map_ok, map_err, div_pow_zero, half_div_pow, div_pow_suc, elim-true,
  elim-false, pow_mono, subst,
}
use incrementalmerkletree.Position.{Position}
use incrementalmerkletree.Address.{Address, position_range_start, position_range_end}
use incrementalmerkletree.Address.Shape.{Fits, shifted_iff, end_eq}
use incrementalmerkletree.Address.Family.{
  left_of, right_of, left-Fits, right-Fits, children_eq, end-left,
}
use incrementalmerkletree.Hashable.{Hashable}
use incrementalmerkletree.Hashable.Node.{node}
use incrementalmerkletree.Hashable.Path.{parity}
use incrementalmerkletree.Frontier.{NonEmptyFrontier}
use incrementalmerkletree.Frontier
use incrementalmerkletree.Frontier.Ommers.{
  ommers_at, frontier_at, ommers_odd, ommers_even, ommers_zero, ommers_stable,
  from_parts-frontier_at,
}
use incrementalmerkletree.ShardTree.Tree.{parent, leaf, nil, is_nil}
use incrementalmerkletree.ShardTree.Prunable.{PrunableTree, root_hash}
use incrementalmerkletree.ShardTree.Prunable.Located.{
  LocatedPrunableTree, FrontierError, ommers_from, frontier_ommers, frontier, add_ommer,
  or_corrupted, from_frontier_error,
}
use incrementalmerkletree.ShardTree.Prunable.Sound.{IsSound, value-truncated_left}
use incrementalmerkletree.ShardTree.Prunable.Sound.Ends.{EndsBy, EndsAt, EndsBy-range, EndsAt-range}
use incrementalmerkletree.ShardTree.Prunable.Sound.RootHash.{root_hash-Answered, Answers}

module _ {ℓ} {H : Type ℓ} ⦃h : Hashable H⦄ (f : ℕ → H) where
  -- One more level on top adds an ommer where its digit is set.
  ommers-snoc_odd :
      (n l q : ℕ)
      → q / 2 ^ n % 2 ≡ 1
      → ommers_at f (suc n) l q ≡ ommers_at f n l q ++ node f (l + n) (q / 2 ^ n - 1) ∷ []
  ommers-snoc_odd zero l q odd =
      ommers_odd f 0 l q (ap (λ k. k % 2) (sym (div_pow_zero q)) ∙ odd)
      ∙ ap₂ ◌∷◌ (ap₂ (λ m i. node f m (i - 1)) (omega arith) (sym (div_pow_zero q)))
          (ommers_zero f (suc l) (q / 2))
      ∙ ap (λ os. os ++ node f (l + 0) (q / 2 ^ 0 - 1) ∷ []) (sym (ommers_zero f l q))
  ommers-snoc_odd (suc n) l q odd =
      let rest =
        ommers-snoc_odd n (suc l) (q / 2) (ap (λ k. k % 2) (half_div_pow q n) ∙ odd)
        ∙ ap (λ v. ommers_at f n (suc l) (q / 2) ++ v ∷ [])
            (ap₂ (λ m i. node f m (i - 1)) (omega arith) (half_div_pow q n)) in
      elim (parity q) [
        | inl low ↦
            ommers_odd f (suc n) l q low
            ∙ ap (λ os. node f l (q - 1) ∷ os) rest
            ∙ ap (λ os. os ++ node f (l + suc n) (q / 2 ^ suc n - 1) ∷ [])
                (sym (ommers_odd f n l q low))
        | inr low ↦
            ommers_even f (suc n) l q low
            ∙ rest
            ∙ ap (λ os. os ++ node f (l + suc n) (q / 2 ^ suc n - 1) ∷ [])
                (sym (ommers_even f n l q low))
      ]

  ommers-snoc_even : (n l q : ℕ) → q / 2 ^ n % 2 ≡ 0 → ommers_at f (suc n) l q ≡ ommers_at f n l q
  ommers-snoc_even zero l q even =
      ommers_even f 0 l q (ap (λ k. k % 2) (sym (div_pow_zero q)) ∙ even)
      ∙ ommers_zero f (suc l) (q / 2)
      ∙ sym (ommers_zero f l q)
  ommers-snoc_even (suc n) l q even =
      let rest = ommers-snoc_even n (suc l) (q / 2) (ap (λ k. k % 2) (half_div_pow q n) ∙ even) in
      elim (parity q) [
        | inl low ↦
            ommers_odd f (suc n) l q low
            ∙ ap (λ os. node f l (q - 1) ∷ os) rest
            ∙ sym (ommers_odd f n l q low)
        | inr low ↦ ommers_even f (suc n) l q low ∙ rest ∙ sym (ommers_even f n l q low)
      ]

  -- The last leaf of the tree is that at the position.
  abbrev EndsWith : Position → Address → PrunableTree H → Type 0
  EndsWith p a t = EndsBy p a t × EndsAt p a t

  -- Parts, if they are returned, are those of the frontier of the last leaf of the tree; an
  -- error names an incomplete node.
  abbrev PartsAnswer :
      Address → PrunableTree H → Result FrontierError (Position × H × List H) → Type ℓ
  PartsAnswer a t (ok (p, v, os)) =
      (p / 2 ^ a.level ≡ a.index) × (v ≡ f p) × (os ≡ ommers_at f a.level 0 p) × EndsWith p a t
  PartsAnswer a t (err problem) =
      ((missing : Address) × (problem ≡ FrontierError.tree_incomplete missing)) × Unit {ℓ}

  abbrev PartsAt :
      Address → PrunableTree H → Option (Result FrontierError (Position × H × List H)) → Type ℓ
  PartsAt a t o =
      (r : Result FrontierError (Position × H × List H)) × (o ≡ some r) × PartsAnswer a t r

  empty_EndsBy : (p : Position) (a : Address) (t : PrunableTree H) → is_nil t ≡ true → EndsBy p a t
  unfolding is_nil
  empty_EndsBy p a nil e = tt
  empty_EndsBy p a (leaf v) e = absurd cc
  empty_EndsBy p a (parent ann l r) e = absurd cc

  up_index :
      (a : Address) (p : Position) → 0 < a.level → p / 2 ^ a.level ≡ p / 2 ^ (a.level - 1) / 2
  up_index a p pos =
      let up : suc (a.level - 1) ≡ a.level = omega arith in
      ap (λ k. p / 2 ^ k) (sym up) ∙ div_pow_suc p (a.level - 1)

  up_left :
      (a : Address) (ann : Option H) (l r : PrunableTree H)
      (x : Result FrontierError (Position × H × List H))
      → 0 < a.level
      → is_nil r ≡ true
      → PartsAnswer (left_of a) l x
      → PartsAnswer a (parent ann l r) x
  up_left a ann l r (err problem) pos empty s = s
  up_left a ann l r (ok (p, v, os)) pos empty (index, last, s, (by, at)) =
      let up : suc (a.level - 1) ≡ a.level = omega arith in
      (
        omega (arith, up_index a p pos, index),
        last,
        s
            ∙ sym (ommers-snoc_even (a.level - 1) 0 p (omega (arith, index)))
            ∙ ap (λ k. ommers_at f k 0 p) up,
        ((by, empty_EndsBy p (right_of a) r empty), inl at),
      )

  up_right :
      (a : Address) (ann : Option H) (l r : PrunableTree H) (p : Position) (v : H) (os : List H)
      (s : Result (List Address) H)
      → Fits a
      → IsSound f a (parent ann l r)
      → PartsAnswer (right_of a) r (ok (p, v, os))
      → Answers f (position_range_start (right_of a)) (left_of a) s
      → PartsAnswer a (parent ann l r) (add_ommer (p, v, os) (left_of a) s)
  up_right a ann l r p v os (err missing) fits st known sw = ((left_of a, refl), tt)
  up_right a ann l r p v os (ok w) fits st (index, last, s, (by, at)) sw =
      let pos = st.0 in
      let behind : position_range_start (right_of a) ≤ p =
        (EndsAt-range f p (right_of a) r (right-Fits a fits st.0) st.3 at).0 in
      let up : suc (a.level - 1) ≡ a.level = omega arith in
      let here : a.level - 1 ≡ 0 + (a.level - 1) = omega arith in
      let digit : 2 * a.index ≡ p / 2 ^ (a.level - 1) - 1 = omega (arith, index) in
      let whole =
        value-truncated_left f (left_of a) (position_range_start (right_of a))
          (left-Fits a fits pos) (omega (arith, end-left a fits pos)) in
      (
        omega (arith, up_index a p pos, index),
        last,
        ap₂ (λ es x. es ++ x ∷ []) s (sw ∙ whole ∙ ap₂ (node f) here digit)
            ∙ sym (ommers-snoc_odd (a.level - 1) 0 p (omega (arith, index)))
            ∙ ap (λ k. ommers_at f k 0 p) up,
        (
          (
            EndsBy-range f p (left_of a) l (left-Fits a fits st.0) st.2
                (omega (arith, end-left a fits st.0, behind)),
            by,
          ),
          inr at,
        ),
      )

  at_children :
      (a : Address) {c : Option (Address × Address)} {l r : Address}
      → c ≡ some (l, r)
      → (g : Address → Address → Option (Result FrontierError (Position × H × List H)))
      → or_corrupted a c g ≡ g l r
  at_children a split g = ap (λ c. or_corrupted a c g) split

  join-PartsAt :
      (a : Address) (ann : Option H) (l r : PrunableTree H)
      (m : Option (Result FrontierError (Position × H × List H)))
      (n : Option (Result (List Address) H)) (x : Result FrontierError (Position × H × List H))
      (w : Result (List Address) H)
      → Fits a
      → IsSound f a (parent ann l r)
      → m ≡ some x
      → n ≡ some w
      → PartsAnswer (right_of a) r x
      → Answers f (position_range_start (right_of a)) (left_of a) w
      → PartsAt a (parent ann l r) (m >>? λ parts. fmap (add_ommer parts (left_of a)) n)
  join-PartsAt a ann l r m n (err problem) w fits st em en known sw =
      (err problem, >>?-err em _, known)
  join-PartsAt a ann l r m n (ok (p, v, os)) w fits st em en known sw = (
    add_ommer (p, v, os) (left_of a) w,
    >>?-ok em _ ∙ ap (fmap (add_ommer (p, v, os) (left_of a))) en,
    up_right a ann l r p v os w fits st known sw,
  )

  low_end : (a : Address) → Fits a → a.level ≡ 0 → position_range_end a ≡ a.index + 1
  low_end a fits level =
      let one : 2 ^ a.level ≡ 1 = rw level refl in
      omega (arith, end_eq a fits, ap (λ (k : ℕ). (a.index + 1) * k) one)

  ommers_from-PartsAt :
      (a : Address) (t : PrunableTree H) → Fits a → IsSound f a t → PartsAt a t (ommers_from a t)
  unfolding ommers_from
  ommers_from-PartsAt a nil fits s = (err (FrontierError.tree_incomplete a), refl, ((a, refl), tt))
  ommers_from-PartsAt a (leaf (v, flags)) fits s = elim (Bool-cases (a.level == 0)) [
    | inl low ↦
        let level : a.level ≡ 0 = ground arith in
        (
          ok (a.index, v, []),
          rw low refl,
          (
            ap (λ k. a.index / 2 ^ k) level ∙ div_pow_zero a.index,
            s ∙ ap (λ k. node f k a.index) level,
            sym (ommers_zero f 0 a.index) ∙ ap (λ k. ommers_at f k 0 a.index) (sym level),
            (omega (arith, low_end a fits level), low_end a fits level),
          ),
        )
    | inr high ↦ (err (FrontierError.tree_incomplete a), rw high refl, ((a, refl), tt))
  ]
  ommers_from-PartsAt a (parent ann l r) fits s = elim (Bool-cases (is_nil r)) [
    | inl empty ↦
        let (x, e, known) = ommers_from-PartsAt (left_of a) l (left-Fits a fits s.0) s.2 in
        (
          x,
          at_children a (children_eq a fits s.0) _ ∙ elim-true empty _ _ ∙ e,
          up_left a ann l r x s.0 empty known,
        )
    | inr there ↦
        let (x, e, known) = ommers_from-PartsAt (right_of a) r (right-Fits a fits s.0) s.3 in
        let (w, ew, sw) =
          root_hash-Answered f (position_range_start (right_of a)) (left_of a) l
            (left-Fits a fits s.0) s.2 in
        let (y, ey, sy) =
          join-PartsAt a ann l r (ommers_from (right_of a) r)
            (root_hash l (left_of a) (position_range_start (right_of a))) x w fits s e ew known
            sw in
        (y, at_children a (children_eq a fits s.0) _ ∙ elim-false there _ _ ∙ ey, sy)
  ]

  accepted :
      (a : Address) (t : PrunableTree H) (p : Position) (v : H) (os : List H)
      → Fits a
      → a.index ≡ 0
      → PartsAnswer a t (ok (p, v, os))
      → (p < 2 ^ a.level) × (Frontier.from_parts p v os ≡ ok (frontier_at f p))
  accepted a t p v os fits first (index, last, s, ends) =
      let held : p < 2 ^ a.level = omega (arith, (shifted_iff 0 p a.level).0 (index ∙ first)) in
      let room : p < 2 ^ 64 =
        omega (arith, held, pow_mono a.level 64 (omega (arith, fits.levels))) in
      (
        held,
        ap₂ (Frontier.from_parts p) last (s ∙ ommers_stable f a.level 64 0 p held room)
            ∙ from_parts-frontier_at f p room,
      )

  -- The frontier of the leaves up to the last one of the tree, no frontier for an empty tree, or
  -- the error that names an incomplete node.
  abbrev pub IsFrontier :
      Address
      → PrunableTree H
      → Option (Result FrontierError (Option (NonEmptyFrontier H)))
      → Type ℓ
  IsFrontier a t o =
      ((p : Position) × (p < 2 ^ a.level)
        × (o ≡ some (ok (some (frontier_at f p))))
        × (EndsBy p a t × EndsAt p a t))
      ⊎ (((o ≡ some (ok none)) × (is_nil t ≡ true))
          ⊎ ((missing : Address) × (o ≡ some (err (FrontierError.tree_incomplete missing)))))

  -- The end of `frontier`.
  abbrev checked :
      Result FrontierError (Option (Position × H × List H))
      → Option (Result FrontierError (Option (NonEmptyFrontier H)))
  checked parts = some parts >>? λ found. elim found [
    | none ↦ some (ok none)
    | some parts ↦
        some
          (map_err from_frontier_error (map_ok some (Frontier.from_parts parts.0 parts.1 parts.2)))
  ]

  checked-IsFrontier :
      (a : Address) (t : PrunableTree H) (x : Result FrontierError (Position × H × List H))
      → Fits a
      → a.index ≡ 0
      → PartsAnswer a t x
      → IsFrontier a t (checked (map_ok some x))
  checked-IsFrontier a t (err problem) fits first known =
      inr (inr (known.0.0, ap (λ why. some (err why)) known.0.1))
  checked-IsFrontier a t (ok (p, v, os)) fits first known =
      let (held, made) = accepted a t p v os fits first known in
      inl (p, held, ap (λ r. some (map_err from_frontier_error (map_ok some r))) made, known.3)

  -- For a tree at an address of 64 bits with index 0 that stands for a sequence of leaves,
  -- frontier does not panic: it returns the frontier of the leaves up to the last one of the
  -- tree, no frontier where the tree is Nil, or the error that names an incomplete node.
  pub frontier-IsFrontier :
      (t : LocatedPrunableTree H)
      → Fits t.root_addr
      → t.root_addr.index ≡ 0
      → IsSound f t.root_addr t.root
      → IsFrontier t.root_addr t.root (frontier t)
  unfolding frontier frontier_ommers
  frontier-IsFrontier t fits first s = elim (Bool-cases (is_nil t.root)) [
    | inl empty ↦
        let none_found : frontier t ≡ some (ok none) = rw empty refl in
        inr (inl (none_found, empty))
    | inr there ↦
        let (x, e, known) = ommers_from-PartsAt t.root_addr t.root fits s in
        let computed : frontier t ≡ checked (map_ok some x) = rw (there, e) refl in
        subst (IsFrontier t.root_addr t.root) (sym computed)
          (checked-IsFrontier t.root_addr t.root x fits first known)
  ]
