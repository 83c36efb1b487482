-- ===== src/Frontier/Append.antt =====
-- Lemmas on `NonEmptyFrontier::append` of incrementalmerkletree/src/frontier.rs, on frontiers
-- of a sequence of leaves.
use native.Mathlib.Nat.{mod-eq_of_lt}
use incrementalmerkletree.Prelude.{
  ℕ, zero, suc, ◌+◌, ◌-◌, ◌*◌, ◌/◌, ◌%◌, ◌^◌, ◌≤◌, ◌<◌, ◌≡◌, refl, arith, some, none, List, [], ◌∷◌,
  ◌++◌, ap, ◌∙◌, pow_double, sym, drop, get_elem?-drop, drop-suc, fmap_comp, foldl_option, ==_self,
  ==_of_lt, ap₂, append_assoc, append-nil, inl, inr, fmap, false,
}
use incrementalmerkletree.Prelude.{◌⊎◌}
use incrementalmerkletree.Position.{Position, root_level, is_right_child}
use incrementalmerkletree.Position.Digits.{is_right_child_iff, root_level-least}
use incrementalmerkletree.Hashable.{Hashable}
use incrementalmerkletree.Hashable.Node.{node}
use incrementalmerkletree.WitnessAddrs.{witness_addrs}
use incrementalmerkletree.WitnessAddrs.Items.{
  path_items, items_odd, items_even, items_zero, witness_addrs_items,
}
use incrementalmerkletree.Frontier.{NonEmptyFrontier, append_step, append, push_carry}
use incrementalmerkletree.Frontier.Ommers.{
  ommers_at, frontier_at, ommers_odd, ommers_even, ommers_stable, ommers_zero,
}

pub parity : (q : ℕ) → (q % 2 ≡ 1) ⊎ (q % 2 ≡ 0)
parity q = omega arith

module _ {ℓ} {H : Type ℓ} ⦃h : Hashable H⦄ (f : ℕ → H) (os : List H) where
  -- With no carry the loop copies the ommers that are left.
  loop_copy :
      (n l q c : ℕ) (new : List H)
      → drop c os ≡ ommers_at f n l q
      → foldl_option (append_step os) (none, new) (path_items n l q c)
        ≡ some (none, new ++ ommers_at f n l q)
  unfolding append_step
  loop_copy zero l q c new e =
      rw (items_zero, ommers_zero f l q) (ap (λ t. some (none, t)) (sym (append-nil new)))
  loop_copy (suc n) l q c new e = elim (parity q) [
    | inl odd ↦
        let e' = e ∙ ommers_odd f n l q odd in
        rw (items_odd n l q c odd, ommers_odd f n l q odd, get_elem?-drop c os e')
          (loop_copy n (suc l) (q / 2) (suc c) (new ++ node f l (q - 1) ∷ []) (drop-suc c os e')
            ∙ ap (λ t. some (none, t))
                (append_assoc new (node f l (q - 1) ∷ []) (ommers_at f n (suc l) (q / 2))))
    | inr even ↦
        rw (items_even n l q c even, ommers_even f n l q even)
          (loop_copy n (suc l) (q / 2) c new (e ∙ ommers_even f n l q even))
  ]

  -- A carry from below the level is pushed before the next ommer, or at the end.
  loop_wait :
      (n l q c cl : ℕ) (v : H) (new : List H)
      → cl < l
      → drop c os ≡ ommers_at f n l q
      → fmap push_carry (foldl_option (append_step os) (some (v, cl), new) (path_items n l q c))
        ≡ some (new ++ v ∷ ommers_at f n l q)
  unfolding append_step
  loop_wait zero l q c cl v new lt e = rw (items_zero, ommers_zero f l q) refl
  loop_wait (suc n) l q c cl v new lt e = elim (parity q) [
    | inl odd ↦
        let e' = e ∙ ommers_odd f n l q odd in
        let o = node f l (q - 1) in
        rw
          (
            items_odd n l q c odd,
            ommers_odd f n l q odd,
            get_elem?-drop c os e',
            ==_of_lt cl l lt,
            loop_copy n (suc l) (q / 2) (suc c) (new ++ v ∷ o ∷ []) (drop-suc c os e'),
          )
          (ap some (append_assoc new (v ∷ o ∷ []) (ommers_at f n (suc l) (q / 2))))
    | inr even ↦
        rw (items_even n l q c even, ommers_even f n l q even)
          (loop_wait n (suc l) (q / 2) c cl v new (omega arith) (e ∙ ommers_even f n l q even))
  ]

  -- The parent of a right child, from the two children.
  node_merge :
      (l q : ℕ) → q % 2 ≡ 1 → h.combine l (node f l (q - 1)) (node f l q) ≡ node f (suc l) (q / 2)
  node_merge l q odd =
      let left : 2 * (q / 2) ≡ q - 1 = omega arith in
      let right : 2 * (q / 2) + 1 ≡ q = omega arith in
      ap₂ (λ i j. h.combine l (node f l i) (node f l j)) (sym left) (sym right)

  -- The carry of the node of index `q` climbs to the lowest clear digit of `q`.
  loop_carry :
      (n l q c : ℕ) (new : List H)
      → q < 2 ^ n
      → l + n < 256
      → drop c os ≡ ommers_at f n l q
      → fmap push_carry
          (foldl_option (append_step os) (some (node f l q, l), new) (path_items n l q c))
        ≡ some (new ++ ommers_at f (suc n) l (q + 1))
  unfolding append_step
  loop_carry zero l q c new small room e =
      let z : q ≡ 0 = omega arith in
      rw (z, items_zero, ommers_odd f 0 l 1 refl, ommers_zero f (suc l) 0) refl
  loop_carry (suc n) l q c new small room e = elim (parity q) [
    | inl odd ↦
        let e' = e ∙ ommers_odd f n l q odd in
        let up : (l + 1) % 2 ^ 8 ≡ suc l = omega arith in
        let half : (q + 1) / 2 ≡ q / 2 + 1 = omega arith in
        rw
          (
            items_odd n l q c odd,
            get_elem?-drop c os e',
            ==_self l,
            node_merge l q odd,
            up,
            ommers_even f (suc n) l (q + 1) (omega arith),
            half,
          )
          (loop_carry n (suc l) (q / 2) (suc c) new (omega (arith, pow_double n)) (omega arith)
            (drop-suc c os e'))
    | inr even ↦
        let half : (q + 1) / 2 ≡ q / 2 = omega arith in
        let back : q + 1 - 1 ≡ q = omega arith in
        rw
          (
            items_even n l q c even,
            loop_wait n (suc l) (q / 2) c l (node f l q) new (omega arith)
                (e ∙ ommers_even f n l q even),
            ommers_odd f (suc n) l (q + 1) (omega arith),
            half,
            back,
            ommers_stable f (suc n) n (suc l) (q / 2)
                (omega (arith, pow_double n, pow_double (suc n))) (omega (arith, pow_double n)),
          )
          refl
  ]

module _ {ℓ} {H : Type ℓ} ⦃h : Hashable H⦄ (f : ℕ → H) (p : Position) (fits : p + 1 < 2 ^ 64) where
  -- A right-hand leaf: the leaf before it becomes the first ommer.
  ommers_next_odd : p % 2 ≡ 0 → f p ∷ ommers_at f 64 0 p ≡ ommers_at f 64 0 (p + 1)
  ommers_next_odd even =
      let half : (p + 1) / 2 ≡ p / 2 = omega arith in
      let back : p + 1 - 1 ≡ p = omega arith in
      rw (ommers_even f 63 0 p even, ommers_odd f 63 0 (p + 1) (omega arith), half, back) refl

  -- A left-hand leaf: the loop over the path of the leaf before it.
  ommers_next_even :
      fmap push_carry (
        foldl_option
          (append_step (ommers_at f 64 0 p))
          (some (f p, 0), [])
          (witness_addrs p (root_level (p + 1))))
      ≡ some (ommers_at f 64 0 (p + 1))
  ommers_next_even =
      let r = root_level (p + 1) in
      let top : r ≤ 64 = (root_level-least (p + 1) 64 fits).1 fits in
      let held : p + 1 < 2 ^ r = (root_level-least (p + 1) r fits).0 (omega arith) in
      rw (witness_addrs_items p r (omega arith)) (
        loop_carry f (ommers_at f 64 0 p) r 0 p 0 [] (omega arith) (omega arith)
          (ommers_stable f 64 r 0 p (omega arith) (omega arith))
        ∙ ap some (ommers_stable f (suc r) 64 0 (p + 1) (omega (arith, pow_double r)) fits))

  -- Appending the next leaf never panics, and gives the frontier of all the leaves.
  pub append-frontier_at : append (frontier_at f p) (f (p + 1)) ≡ some (frontier_at f (p + 1))
  unfolding append
  append-frontier_at = elim (parity p) [
    | inl odd ↦
        rw
          (
            mod-eq_of_lt fits,
            not_right (omega arith),
            fmap_comp {C = NonEmptyFrontier H} push_carry
                (λ os. record { position = p + 1; leaf = f (p + 1); ommers = os })
                (foldl_option (append_step (ommers_at f 64 0 p)) (some (f p, 0), [])
                  (witness_addrs p (root_level (p + 1)))),
            ommers_next_even,
          )
          refl
    | inr even ↦
        rw (mod-eq_of_lt fits, (is_right_child_iff (p + 1)).1 (omega arith), ommers_next_odd even)
          refl
  ]
    where
      not_right : (p + 1) % 2 ≡ 0 → is_right_child (p + 1) ≡ false
      not_right e = ground (arith, is_right_child_iff (p + 1))
