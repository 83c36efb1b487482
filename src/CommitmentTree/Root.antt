-- ===== src/CommitmentTree/Root.antt =====
-- Lemmas on `CommitmentTree::root_at_depth` of incrementalmerkletree/src/frontier.rs.
use native.Mathlib.Nat.{mul-le-mul_right, div-eq_of_lt}
use incrementalmerkletree.Prelude.{
  ℕ, zero, suc, ◌+◌, ◌-◌, ◌*◌, ◌/◌, ◌^◌, ◌≤◌, ◌<◌, ◌≡◌, refl, arith, Option, some, none,
  if◌then◌else◌, ap, ap₂, sym, ◌∙◌, false, inl, inr, List, [], ◌∷◌, ltb, lt→ltb, le→ltb, ◌==◌,
  ◌>>=◌, >>=-some, pow_double, pow_pos, u8, subst, lt_or_le, div_pow_suc,
}
use incrementalmerkletree.Hashable.{Hashable, empty_root}
use incrementalmerkletree.Hashable.Node.{node, until, node_ext, node_empty}
use incrementalmerkletree.Frontier.Root.{on_path, step_left, step_right}
use incrementalmerkletree.CommitmentTree.{
  CommitmentTree, append, empty, padded, root, root_up, root_at_depth, empty_filler, fill,
  leaf_or_fill, leaf_or_fill,
}
use incrementalmerkletree.CommitmentTree.Holds.{Parents, Pair, Holds, empty-Holds, append-Holds}

half_le : (n l q : ℕ) → q * 2 ^ l ≤ n → q / 2 * 2 ^ suc l ≤ n
half_le n l q le = omega (
  arith,
  le,
  ap (λ (t : ℕ). q / 2 * t) (pow_double l),
  mul-le-mul_right {m = 2 * (q / 2)} {n = q} (2 ^ l) (omega arith),
)

module _ {ℓ} {H : Type ℓ} ⦃h : Hashable H⦄ where
  -- One round of the fold, with no nodes to fill in.
  root_up-none :
      (i j : ℕ) (r : H) (ps : List (Option H))
      → u8 (i + 1) ≡ j
      → root_up i r empty_filler (none ∷ ps)
        ≡ root_up j (h.combine j r (empty_root j)) empty_filler ps
  unfolding root_up empty_filler fill
  root_up-none i j r ps up = ap (λ j. root_up j (h.combine j r (empty_root j)) empty_filler ps) up

  root_up-some :
      (i j : ℕ) (r v : H) (ps : List (Option H))
      → u8 (i + 1) ≡ j
      → root_up i r empty_filler (some v ∷ ps) ≡ root_up j (h.combine j v r) empty_filler ps
  unfolding root_up
  root_up-some i j r v ps up = ap (λ j. root_up j (h.combine j v r) empty_filler ps) up

  empty_root-zero : empty_root 0 ≡ h.empty_leaf
  empty_root-zero = sym (node_empty 0 0)

module _ {ℓ} {H : Type ℓ} ⦃h : Hashable H⦄ (f : ℕ → H) (p : ℕ) where
  -- The fold over the parents climbs the path of position `p`.
  root_up-on_path :
      (k i : ℕ) (ps : List (Option H))
      → Parents f (suc i) (p / 2 ^ suc i) ps
      → suc i + k < 256
      → root_up i (on_path f p (suc i)) empty_filler (padded k ps) ≡ on_path f p (suc i + k)
  root_up-on_path zero i ps s room =
      let whole : suc i ≡ suc i + 0 = omega arith in unfold root_up in ap (on_path f p) whole
  root_up-on_path (suc k) i [] s room =
      root_up-none i (suc i) (on_path f p (suc i)) (padded k []) (omega arith)
      ∙ ap (λ r. root_up (suc i) r empty_filler (padded k []))
          (step_left f p (suc i) (omega (arith, s.0)))
      ∙ root_up-on_path k (suc i) [] (omega (arith, s.0, div_pow_suc p (suc i)), tt) (omega arith)
      ∙ ap (on_path f p) (omega arith)
  root_up-on_path (suc k) i (none ∷ ps) s room =
      root_up-none i (suc i) (on_path f p (suc i)) (padded k ps) (omega arith)
      ∙ ap (λ r. root_up (suc i) r empty_filler (padded k ps)) (step_left f p (suc i) s.0)
      ∙ root_up-on_path k (suc i) ps
          (subst (λ q. Parents f (suc (suc i)) q ps) (sym (div_pow_suc p (suc i))) s.1)
          (omega arith)
      ∙ ap (on_path f p) (omega arith)
  root_up-on_path (suc k) i (some v ∷ ps) s room =
      root_up-some i (suc i) (on_path f p (suc i)) v (padded k ps) (omega arith)
      ∙ ap (λ r. root_up (suc i) r empty_filler (padded k ps))
          (ap (λ w. h.combine (suc i) w (on_path f p (suc i))) s.1 ∙ step_right f p (suc i) s.0)
      ∙ root_up-on_path k (suc i) ps
          (subst (λ q. Parents f (suc (suc i)) q ps) (sym (div_pow_suc p (suc i))) s.2)
          (omega arith)
      ∙ ap (on_path f p) (omega arith)

module _ {ℓ} {H : Type ℓ} ⦃h : Hashable H⦄ (f : ℕ → H) where
  -- The first `n` leaves, and empty ones behind.
  abbrev pub first : ℕ → ℕ → H
  first n i = if ltb i n then f i else h.empty_leaf

  first_in : (n i : ℕ) → i < n → first n i ≡ f i
  first_in n i lt = rw (lt→ltb i n lt) refl

  first_out : (n i : ℕ) → n ≤ i → first n i ≡ h.empty_leaf
  first_out n i le = rw (le→ltb i n le) refl

  -- The leaves of the tree, hashed together.
  hash_leaves :
      (n : ℕ) (left right : Option H)
      → Pair f n left right
      → h.combine 0
          (leaf_or_fill left empty_filler).0
          (leaf_or_fill right (leaf_or_fill left empty_filler).1).0
        ≡ node (first n) 1 ((n - 1) / 2)
  unfolding fill empty_filler
  hash_leaves n none none pair =
      ap₂ (h.combine 0) (empty_root-zero ∙ sym (first_out n _ (omega (arith, pair.0))))
        (empty_root-zero ∙ sym (first_out n _ (omega (arith, pair.0))))
  hash_leaves n none (some b) pair = absurd (omega (arith, pair.0))
  hash_leaves n (some a) none pair =
      ap₂ (h.combine 0)
        (pair.1
          ∙ ap f (omega (arith, pair.0))
          ∙ sym (first_in n (2 * ((n - 1) / 2)) (omega (arith, pair.0))))
        (empty_root-zero ∙ sym (first_out n _ (omega (arith, pair.0))))
  hash_leaves n (some a) (some b) pair =
      ap₂ (h.combine 0)
        (pair.2
          ∙ ap f (omega (arith, pair.0, pair.1))
          ∙ sym (first_in n (2 * ((n - 1) / 2)) (omega (arith, pair.0, pair.1))))
        (pair.3
          ∙ ap f (omega (arith, pair.0, pair.1))
          ∙ sym (first_in n (2 * ((n - 1) / 2) + 1) (omega (arith, pair.0, pair.1))))

  filler_kept :
      (left right : Option H)
      → (leaf_or_fill right (leaf_or_fill left empty_filler).1).1 ≡ empty_filler
  unfolding fill empty_filler
  filler_kept none none = refl
  filler_kept none (some b) = refl
  filler_kept (some a) none = refl
  filler_kept (some a) (some b) = refl

  -- Only the first `n` leaves matter to the parents.
  Parents-first :
      (n l q : ℕ) (ps : List (Option H))
      → q * 2 ^ l ≤ n
      → Parents f l q ps
      → Parents (first n) l q ps
  Parents-first n l q [] le s = s
  Parents-first n l q (none ∷ ps) le s =
      (s.0, Parents-first n (suc l) (q / 2) ps (half_le n l q le) s.1)
  Parents-first n l q (some v ∷ ps) le s =
      let whole : q - 1 + 1 ≡ q = omega (arith, s.0) in
      (
        s.0,
        s.1
            ∙ node_ext f (first n) l (q - 1) (λ j lo hi.
              sym (first_in n j (omega (arith, le, ap (λ (t : ℕ). t * 2 ^ l) whole)))),
        Parents-first n (suc l) (q / 2) ps (half_le n l q le) s.2,
      )

  until-first : (n k i : ℕ) → node (until (n - 1) (first n)) k i ≡ node (first n) k i
  until-first n k i = node_ext (until (n - 1) (first n)) (first n) k i (λ j lo hi.
      elim (lt_or_le (n - 1) j) [
        | inl lt ↦ rw (lt→ltb (n - 1) j lt) (sym (first_out n j (omega arith)))
        | inr le ↦ rw (le→ltb (n - 1) j le) refl
      ])

  -- The root of a tree that holds `n` leaves.
  pub root-Holds :
      (depth n : ℕ) (t : CommitmentTree H)
      → 0 < depth
      → depth < 255
      → n ≤ 2 ^ depth
      → Holds f n t
      → root depth t ≡ some (node (first n) depth 0)
  unfolding root root_at_depth
  root-Holds depth n t pos room le s =
      let p = n - 1 in
      let above : (depth == 0) ≡ false = ground arith in
      let whole : suc 0 + (depth - 1) ≡ depth = omega arith in
      let climbed =
        root_up-on_path (first n) p (depth - 1) 0 t.parents
          (Parents-first n 1 (p / 2 ^ 1) t.parents (omega arith) s.1) (omega arith) in
      let held : p < 2 ^ depth = omega (arith, pow_pos depth) in
      rw above (
        ap some (
          ap₂ (λ r filler. root_up 0 r filler (padded (depth - 1) t.parents))
            (hash_leaves n t.left t.right s.0 ∙ sym (until-first n 1 (p / 2)))
            (filler_kept t.left t.right)
          ∙ climbed
          ∙ ap (on_path (first n) p) whole
          ∙ until-first n depth (p / 2 ^ depth)
          ∙ ap (node (first n) depth) (div-eq_of_lt held)))

  -- The tree after appending the first `n` leaves to the empty one.
  abbrev pub grown : ℕ → ℕ → Option (CommitmentTree H)
  grown depth zero = some empty
  grown depth (suc n) = grown depth n >>= λ t. append depth t (f n)

  grown-Holds :
      (depth n : ℕ)
      → 0 < depth
      → depth < 255
      → n ≤ 2 ^ depth
      → (t : CommitmentTree H) × (grown depth n ≡ some t) × Holds f n t
  grown-Holds depth zero pos room le = (empty, refl, empty-Holds f)
  grown-Holds depth (suc n) pos room le =
      let (t, e, s) = grown-Holds depth n pos room (omega arith) in
      elim (append-Holds f depth n t pos room (omega arith) s) [
        | inl (lt, (t', added, s')) ↦
            let next : n + 1 ≡ suc n = omega arith in
            (t', >>=-some e _ ∙ added, subst (λ k. Holds f k t') next s')
        | inr (full, refused) ↦ absurd (omega arith)
      ]

  -- For a depth from 1 to 254, appending up to 2^depth leaves one by one to the empty
  -- commitment tree never fails, and its root then is that of the complete tree over them,
  -- with empty leaves filling it up.
  pub root-grown :
      (depth n : ℕ)
      → 0 < depth
      → depth < 255
      → n ≤ 2 ^ depth
      → (grown depth n >>= root depth) ≡ some (node (first n) depth 0)
  root-grown depth n pos room le =
      let (t, e, s) = grown-Holds depth n pos room le in
      >>=-some e (root depth) ∙ root-Holds depth n t pos room le s
