-- ===== src/Frontier/Root.antt =====
-- Lemmas on `NonEmptyFrontier::root` of incrementalmerkletree/src/frontier.rs, on frontiers of a
-- sequence of leaves.
use native.Mathlib.Nat.{div-mul-le_self, lt-div-mul-add, div-eq_of_lt}
use incrementalmerkletree.Prelude.{
  ℕ, zero, suc, ◌+◌, ◌-◌, ◌*◌, ◌/◌, ◌%◌, ◌^◌, ◌<◌, ◌≡◌, refl, arith, some, List, ap, ◌∙◌, pow_pos,
  sym, drop, get_elem?-drop, drop-suc, foldl_option, inl, inr, fmap, ap₂, foldl, div_pow_suc,
  div_pow_zero, le→ltb,
}
use incrementalmerkletree.Level.{iter_to, Level}
use incrementalmerkletree.Position.{Position}
use incrementalmerkletree.Hashable.{Hashable, empty_root}
use incrementalmerkletree.Hashable.Node.{node, until, node-until_left, node-until_right}
use incrementalmerkletree.WitnessAddrs.Items.{
  path_items, items_odd, items_even, items_zero, witness_addrs_items,
}
use incrementalmerkletree.Frontier.{root_step, root}
use incrementalmerkletree.Frontier.Ommers.{
  ommers_at, frontier_at, ommers_odd, ommers_even, ommers_stable,
}
use incrementalmerkletree.Frontier.Append.{parity}

module _ {ℓ} {H : Type ℓ} ⦃h : Hashable H⦄ (f : ℕ → H) (p : ℕ) where
  -- The node above position `p` at level `l`.
  abbrev pub on_path : ℕ → H
  on_path l = node (until p f) l (p / 2 ^ l)

  half_path : (l : ℕ) → p / 2 ^ suc l ≡ p / 2 ^ l / 2
  half_path l = div_pow_suc p l

  -- One step up from a right child: the left sibling is full.
  pub step_right :
      (l : ℕ)
      → p / 2 ^ l % 2 ≡ 1
      → h.combine l (node f l (p / 2 ^ l - 1)) (on_path l) ≡ on_path (suc l)
  step_right l odd =
      let left : 2 * (p / 2 ^ suc l) ≡ p / 2 ^ l - 1 = omega (arith, half_path l) in
      let right : 2 * (p / 2 ^ suc l) + 1 ≡ p / 2 ^ l = omega (arith, half_path l) in
      let whole : p / 2 ^ l - 1 + 1 ≡ p / 2 ^ l = omega arith in
      ap₂ (h.combine l)
        (sym (
            node-until_left p f l (p / 2 ^ l - 1)
              (rw whole (omega (arith, div-mul-le_self p (2 ^ l)))))
          ∙ ap (node (until p f) l) (sym left))
        (ap (node (until p f) l) (sym right))

  -- One step up from a left child: the right sibling is empty.
  pub step_left :
      (l : ℕ) → p / 2 ^ l % 2 ≡ 0 → h.combine l (on_path l) (empty_root l) ≡ on_path (suc l)
  step_left l even =
      let left : 2 * (p / 2 ^ suc l) ≡ p / 2 ^ l = omega (arith, half_path l) in
      let right : 2 * (p / 2 ^ suc l) + 1 ≡ p / 2 ^ l + 1 = omega (arith, half_path l) in
      ap₂ (h.combine l) (ap (node (until p f) l) (sym left)) (
        sym (
          node-until_right p f l (p / 2 ^ l + 1)
            (omega (arith, lt-div-mul-add {a = p} {b = 2 ^ l} (pow_pos l))))
        ∙ ap (node (until p f) l) (sym right))

  -- Where the digest completes level `l` already, no empty roots are folded in between.
  no_fill : (l : ℕ) (d : H) → foldl (λ d l. h.combine l d (empty_root l)) d (iter_to l l) ≡ d
  unfolding iter_to
  no_fill l d = let z : l - l ≡ 0 = omega arith in rw z refl

  loop_root :
      (os : List H) (n l c : ℕ)
      → l + n < 256
      → drop c os ≡ ommers_at f n l (p / 2 ^ l)
      → fmap (λ s. s.0) (foldl_option (root_step os) (on_path l, l) (path_items n l (p / 2 ^ l) c))
        ≡ some (on_path (l + n))
  unfolding root_step
  loop_root os zero l c room e = let z : l + 0 ≡ l = omega arith in rw (z, items_zero) refl
  loop_root os (suc n) l c room e =
      let q = p / 2 ^ l in
      let up : (l + 1) % 2 ^ 8 ≡ suc l = omega arith in
      let later : l + suc n ≡ suc l + n = omega arith in
      elim (parity q) [
        | inl odd ↦
            let e' = e ∙ ommers_odd f n l q odd in
            rw
              (
                items_odd n l q c odd,
                no_fill l (on_path l),
                get_elem?-drop c os e',
                step_right l odd,
                up,
                ← half_path l,
                later,
              )
              (loop_root os n (suc l) (suc c) (omega arith) (rw half_path (drop-suc c os e')))
        | inr even ↦
            rw
              (
                items_even n l q c even,
                no_fill l (on_path l),
                step_left l even,
                up,
                ← half_path l,
                later,
              )
              (loop_root os n (suc l) c (omega arith) (rw half_path (e ∙ ommers_even f n l q even)))
      ]

module _ {ℓ} {H : Type ℓ} ⦃h : Hashable H⦄ (f : ℕ → H) (p : Position) (fits : p < 2 ^ 64) where
  -- The root of a frontier, at any level that holds its leaves.
  pub root-frontier_at :
      (k : Level)
      → p < 2 ^ k
      → k < 256
      → root (frontier_at f p) (some k) ≡ some (node (until p f) k 0)
  unfolding root
  root-frontier_at k held top =
      let whole : 0 + k ≡ k = omega arith in
      rw (witness_addrs_items p k top) (
        rw (div_pow_zero p, le→ltb p p (omega arith), whole, div-eq_of_lt held) at
          (loop_root f p (ommers_at f 64 0 p) k 0 0 (omega arith)
            (rw (div_pow_zero p) (ommers_stable f 64 k 0 p fits held))))
