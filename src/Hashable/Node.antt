-- ===== src/Hashable/Node.antt =====
-- What the trees of the repository stand for: the nodes of the complete tree over a sequence of
-- leaves, `f i` being leaf `i`. This is the specification of all of them.
use incrementalmerkletree.Prelude.{
  ℕ, zero, suc, ◌+◌, ◌-◌, ◌*◌, ◌^◌, ◌<◌, ◌≤◌, ◌≡◌, refl, arith, foldl, ◌++◌, List, [], ◌∷◌, ltb,
  if◌then◌else◌, ap, ap₂, ◌∙◌, sym, pow_double, le→ltb, lt→ltb,
}
use mathlib.Core.List.{foldl-append}
use incrementalmerkletree.Level.{range, iter_to}
use incrementalmerkletree.Hashable.{Hashable, empty_root}

range-last : (n a : ℕ) → range a (suc n) ≡ range a n ++ (a + n) ∷ []
range-last zero a = let e : a + 0 ≡ a = omega arith in rw e refl
range-last (suc n) a =
    let e : suc a + n ≡ a + suc n = omega arith in
    ap (λ t. a ∷ t) (range-last n (suc a) ∙ ap (λ t. range (suc a) n ++ t ∷ []) e)

module _ {ℓ} {H : Type ℓ} ⦃h : Hashable H⦄ where
  -- The value of the node at level `k` and index `i`.
  abbrev pub node : (ℕ → H) → ℕ → ℕ → H
  node f zero i = f i
  node f (suc k) i = h.combine k (node f k (2 * i)) (node f k (2 * i + 1))

  -- The leaves up to position `p`, and empty ones behind.
  abbrev pub until : ℕ → (ℕ → H) → ℕ → H
  until p f i = if ltb p i then h.empty_leaf else f i

  pub empty_root-suc : (k : ℕ) → empty_root (suc k) ≡ h.combine k (empty_root k) (empty_root k)
  unfolding empty_root iter_to
  empty_root-suc k =
      let e : suc k - 0 ≡ suc k = omega arith in
      let d : k - 0 ≡ k = omega arith in
      let z : 0 + k ≡ k = omega arith in
      rw (e, d)
        (ap (λ (t : List ℕ). foldl (λ v lvl. h.combine lvl v v) h.empty_leaf t) (range-last k 0)
          ∙ foldl-append (λ v lvl. h.combine lvl v v) h.empty_leaf (range 0 k) ((0 + k) ∷ [])
          ∙ ap
              (λ (t : ℕ).
                h.combine t (foldl (λ v lvl. h.combine lvl v v) h.empty_leaf (range 0 k))
                  (foldl (λ v lvl. h.combine lvl v v) h.empty_leaf (range 0 k)))
              z)

  -- A node is settled by the leaves below it.
  pub node_ext :
      (f g : ℕ → H) (k i : ℕ)
      → ((j : ℕ) → i * 2 ^ k ≤ j → j < (i + 1) * 2 ^ k → f j ≡ g j)
      → node f k i ≡ node g k i
  node_ext f g zero i same = same i (omega arith) (omega arith)
  node_ext f g (suc k) i same =
      ap₂ (h.combine k)
        (node_ext f g k (2 * i) (λ j lo hi.
          same j (omega (arith, ap (λ (t : ℕ). i * t) (pow_double k)))
            (omega (arith, ap (λ (t : ℕ). i * t) (pow_double k), pow_double k))))
        (node_ext f g k (2 * i + 1) (λ j lo hi.
          same j (omega (arith, ap (λ (t : ℕ). i * t) (pow_double k)))
            (omega (arith, ap (λ (t : ℕ). i * t) (pow_double k), pow_double k))))

  -- The root of a tree with no leaves.
  pub node_empty : (k i : ℕ) → node (λ _. h.empty_leaf) k i ≡ empty_root k
  node_empty zero i = unfold empty_root iter_to in refl
  node_empty (suc k) i =
      ap₂ (h.combine k) (node_empty k (2 * i)) (node_empty k (2 * i + 1)) ∙ sym (empty_root-suc k)

  -- A node right of the last leaf.
  pub node-until_right :
      (p : ℕ) (f : ℕ → H) (k i : ℕ) → p < i * 2 ^ k → node (until p f) k i ≡ empty_root k
  node-until_right p f k i right =
      node_ext (until p f) (λ _. h.empty_leaf) k i (λ j lo hi. rw (lt→ltb p j (omega arith)) refl)
      ∙ node_empty k i

  -- A node left of it.
  pub node-until_left :
      (p : ℕ) (f : ℕ → H) (k i : ℕ) → (i + 1) * 2 ^ k ≤ p + 1 → node (until p f) k i ≡ node f k i
  node-until_left p f k i left =
      node_ext (until p f) f k i (λ j lo hi. rw (le→ltb p j (omega arith)) refl)
