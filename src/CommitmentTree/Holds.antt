-- ===== src/CommitmentTree/Holds.antt =====
-- What a commitment tree stands for: the first `n` leaves of a sequence.
use incrementalmerkletree.Prelude.{
  ℕ, zero, suc, ◌+◌, ◌-◌, ◌*◌, ◌/◌, ◌%◌, ◌^◌, ◌≤◌, ◌<◌, ◌≡◌, ◌↔◌, refl, arith, Option, some, none,
  ap, ap₂, ◌∙◌, true, false, Bool-cases, inl, inr, List, [], ◌∷◌, ◌==◌, ◌&&◌, pow_double, pow_pos,
  is_some, u8, subst, ◌⊎◌, lt_or_le,
}
use incrementalmerkletree.Hashable.{Hashable}
use incrementalmerkletree.Hashable.Node.{node}
use incrementalmerkletree.CommitmentTree.{
  CommitmentTree, append, empty, is_complete, carry_parents, push_leaf, padded, all_some,
}

module _ {ℓ} {H : Type ℓ} ⦃h : Hashable H⦄ (f : ℕ → H) where
  -- The parents from level `l` up, at the digits of `q`: where a digit is set, the node left of
  -- the path.
  abbrev pub Parents : ℕ → ℕ → List (Option H) → Type ℓ
  Parents l q [] = (q ≡ 0) × Unit
  Parents l q (none ∷ ps) = (q % 2 ≡ 0) × Parents (suc l) (q / 2) ps
  Parents l q (some v ∷ ps) = (q % 2 ≡ 1) × (v ≡ node f l (q - 1)) × Parents (suc l) (q / 2) ps

  -- The two leaves, after `n` of them.
  abbrev pub Pair : ℕ → Option H → Option H → Type ℓ
  Pair n none none = (n ≡ 0) × Unit
  Pair n (some a) none = (n % 2 ≡ 1) × (a ≡ f (n - 1))
  Pair n (some a) (some b) = (n % 2 ≡ 0) × (0 < n) × (a ≡ f (n - 2)) × (b ≡ f (n - 1))
  Pair n none (some b) = (n < 0) × Unit

  -- The tree holds `f 0` to `f (n - 1)`.
  abbrev pub Holds : ℕ → CommitmentTree H → Type ℓ
  Holds n t = Pair n t.left t.right × Parents 1 ((n - 1) / 2) t.parents

  -- All the parents below the root are there when the digits are all set.
  all_some_iff :
      (k l q : ℕ) (ps : List (Option H))
      → Parents l q ps
      → q < 2 ^ k
      → (all_some (padded k ps) ≡ true) ↔ (q + 1 ≡ 2 ^ k)
  all_some_iff zero l q ps s lt = ((λ e. omega arith), (λ e. refl))
  all_some_iff (suc k) l q [] s lt =
      ((λ e. cc), (λ e. absurd (omega (arith, pow_double k, pow_pos k))))
  all_some_iff (suc k) l q (none ∷ ps) s lt =
      ((λ e. cc), (λ e. absurd (omega (arith, s.0, pow_double k, pow_pos k))))
  all_some_iff (suc k) l q (some v ∷ ps) s lt =
      let (there, back) = all_some_iff k (suc l) (q / 2) ps s.2 (omega (arith, pow_double k)) in
      (
        (λ e. omega (arith, there e, s.0, pow_double k)),
        (λ e. back (omega (arith, s.0, pow_double k))),
      )

  full_iff :
      (k n : ℕ) (left right : Option H) (ps : List (Option H))
      → Pair n left right
      → Parents 1 ((n - 1) / 2) ps
      → n ≤ 2 ^ suc k
      → (is_some left && is_some right && all_some (padded k ps) ≡ true) ↔ (n ≡ 2 ^ suc k)
  full_iff k n none none ps pair s le =
      ((λ e. cc), (λ e. absurd (omega (arith, pair.0, pow_pos (suc k)))))
  full_iff k n none (some b) ps pair s le = absurd (omega (arith, pair.0))
  full_iff k n (some a) none ps pair s le =
      ((λ e. cc), (λ e. absurd (omega (arith, pair.0, pow_double k))))
  full_iff k n (some a) (some b) ps pair s le =
      let (there, back) =
        all_some_iff k 1 ((n - 1) / 2) ps s (omega (arith, pair.0, pair.1, pow_double k)) in
      (
        (λ e. omega (arith, pair.0, pair.1, there e, pow_double k)),
        (λ e. back (omega (arith, pair.0, pair.1, pow_double k))),
      )

  -- The tree is full when it holds the leaves of `depth` levels.
  pub is_complete-Holds :
      (depth n : ℕ) (t : CommitmentTree H)
      → Holds n t
      → 0 < depth
      → n ≤ 2 ^ depth
      → (is_complete t depth ≡ true) ↔ (n ≡ 2 ^ depth)
  unfolding is_complete
  is_complete-Holds zero n t s pos le = absurd (omega arith)
  is_complete-Holds (suc k) n t s pos le =
      let above : (suc k == 0) ≡ false = ground arith in
      let below : suc k - 1 ≡ k = omega arith in
      rw (above, below) (full_iff k n t.left t.right t.parents s.0 s.1 le)

  carry-Parents :
      (rounds i q : ℕ) (c : H) (ps : List (Option H))
      → c ≡ node f (suc i) q
      → Parents (suc i) q ps
      → q + 1 < 2 ^ rounds
      → i + rounds < 255
      → Parents (suc i) (q + 1) (carry_parents rounds i c ps)
  unfolding carry_parents
  carry-Parents zero i q c ps is_value s lt room = absurd (omega arith)
  carry-Parents (suc rounds) i q c [] is_value s lt room =
      let zero_yet : q ≡ 0 = s.0 in
      (omega arith, is_value ∙ ap (node f (suc i)) (omega arith), (omega arith, tt))
  carry-Parents (suc rounds) i q c (none ∷ ps) is_value s lt room =
      let half : q / 2 ≡ (q + 1) / 2 = omega (arith, s.0) in
      (
        omega (arith, s.0),
        is_value ∙ ap (node f (suc i)) (omega arith),
        subst (λ k. Parents (suc (suc i)) k ps) half s.1,
      )
  carry-Parents (suc rounds) i q c (some v ∷ ps) is_value s lt room =
      let up : (i + 1) % 2 ^ 8 ≡ suc i = omega arith in
      let half : q / 2 + 1 ≡ (q + 1) / 2 = omega (arith, s.0) in
      let left : q - 1 ≡ 2 * (q / 2) = omega (arith, s.0) in
      let right : q ≡ 2 * (q / 2) + 1 = omega (arith, s.0) in
      (
        omega (arith, s.0),
        subst
            (λ k.
              Parents (suc (suc i)) k
                (carry_parents rounds (suc i) (h.combine (u8 (i + 1)) v c) ps))
            half
            (carry-Parents rounds (suc i) (q / 2) (h.combine (u8 (i + 1)) v c) ps
              (rw up (
                ap₂ (h.combine (suc i)) (s.1 ∙ ap (node f (suc i)) left)
                  (is_value ∙ ap (node f (suc i)) right)))
              s.2 (omega (arith, pow_double rounds)) (omega arith)),
      )

  -- A leaf that is added to a tree with room.
  push_leaf-Holds :
      (depth n : ℕ) (left right : Option H) (ps : List (Option H))
      → depth < 255
      → Pair n left right
      → Parents 1 ((n - 1) / 2) ps
      → n < 2 ^ depth
      → Holds (n + 1) (push_leaf depth (record { left = left; right = right; parents = ps }) (f n))
  push_leaf-Holds depth n none none ps room pair s lt =
      let none_yet : n ≡ 0 = pair.0 in
      ((omega arith, ap f (omega arith)), subst (λ k. Parents 1 k ps) (omega arith) s)
  push_leaf-Holds depth n none (some b) ps room pair s lt = absurd (omega (arith, pair.0))
  push_leaf-Holds depth n (some a) none ps room pair s lt = (
    (omega (arith, pair.0), omega arith, pair.1 ∙ ap f (omega arith), ap f (omega arith)),
    subst (λ k. Parents 1 k ps) (omega (arith, pair.0)) s,
  )
  push_leaf-Holds depth n (some a) (some b) ps room pair s lt =
      let next : (n - 1) / 2 + 1 ≡ (n + 1 - 1) / 2 = omega (arith, pair.0, pair.1) in
      (
        (omega (arith, pair.0), ap f (omega arith)),
        subst (λ k. Parents 1 k (carry_parents depth 0 (h.combine 0 a b) ps)) next
            (carry-Parents depth 0 ((n - 1) / 2) (h.combine 0 a b) ps
              (ap₂ (h.combine 0) (pair.2 ∙ ap f (omega (arith, pair.0, pair.1)))
                (pair.3 ∙ ap f (omega (arith, pair.0, pair.1))))
              s (omega (arith, pair.0, pair.1)) (omega arith)),
      )

  pub empty-Holds : Holds 0 empty
  unfolding empty
  empty-Holds = ((refl, tt), (refl, tt))

  -- For a depth from 1 to 254, a commitment tree that holds the first n leaves of a sequence,
  -- n at most 2^depth, takes the next one if n is less than 2^depth and then holds n + 1, and
  -- refuses it if n is 2^depth.
  pub append-Holds :
      (depth n : ℕ) (t : CommitmentTree H)
      → 0 < depth
      → depth < 255
      → n ≤ 2 ^ depth
      → Holds n t
      → ((n < 2 ^ depth)
          × ((t' : CommitmentTree H) × (append depth t (f n) ≡ some t') × Holds (n + 1) t'))
        ⊎ ((n ≡ 2 ^ depth) × (append depth t (f n) ≡ none))
  unfolding append
  append-Holds depth n t pos room le s = elim (Bool-cases (is_complete t depth)) [
    | inl full ↦ inr ((is_complete-Holds depth n t s pos le).0 full, rw full refl)
    | inr more ↦
        let (there, back) = is_complete-Holds depth n t s pos le in
        let lt : n < 2 ^ depth = elim (lt_or_le n (2 ^ depth)) [
          | inl lt ↦ lt
          | inr ge ↦ let full = back (omega arith) in absurd cc
        ] in
        inl (
          lt,
          (
            push_leaf depth t (f n),
            rw more refl,
            push_leaf-Holds depth n t.left t.right t.parents room s.0 s.1 lt,
          ),
        )
  ]
