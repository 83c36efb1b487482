-- ===== src/Frontier/Bounded/Leaves.antt =====
-- A frontier stands for the list of the leaves appended so far.
use native.Mathlib.Nat.{mod-eq_of_lt, mod_self, mul-le-mul_right}
use incrementalmerkletree.Prelude.{
  ℕ, zero, suc, ◌+◌, ◌-◌, ◌*◌, ◌/◌, ◌^◌, ◌≤◌, ◌<◌, ◌≡◌, refl, arith, some, none, List, [], ◌∷◌,
  ◌++◌, if◌then◌else◌, length, length-append, ap, ap₂, ◌∙◌, sym, get_or, true, false, ltb, lt→ltb,
  le→ltb, pow_pos, pow_double, inl, inr, lt_or_le, pow_mono, not, Bool-cases,
}
use incrementalmerkletree.Position.{is_complete_subtree}
use incrementalmerkletree.Position.Digits.{is_complete_subtree_iff}
use incrementalmerkletree.Hashable.{Hashable}
use incrementalmerkletree.Hashable.Node.{node, until, node_ext, node_empty}
use incrementalmerkletree.Hashable.Path.{parity}
use incrementalmerkletree.Frontier.{NonEmptyFrontier}
use incrementalmerkletree.Frontier as NonEmpty
use incrementalmerkletree.Frontier.Ommers.{
  ommers_at, frontier_at, ommers_none, ommers_zero, ommers_odd, ommers_even,
}
use incrementalmerkletree.Frontier.Append.{append-frontier_at}
use incrementalmerkletree.Frontier.Root.{root-frontier_at}
use incrementalmerkletree.Frontier.Bounded.{Frontier, append, root, tree_size}

module _ {ℓ} {H : Type ℓ} where
  pub get_or-append_left :
      (xs ys : List H) (i : ℕ) (d : H) → i < length xs → get_or (xs ++ ys) i d ≡ get_or xs i d
  get_or-append_left [] ys i d h = absurd (omega arith)
  get_or-append_left (x ∷ xs) ys zero d h = refl
  get_or-append_left (x ∷ xs) ys (suc i) d h = get_or-append_left xs ys i d (omega arith)

  pub get_or-append_length :
      (xs ys : List H) (d : H) → get_or (xs ++ ys) (length xs) d ≡ get_or ys 0 d
  get_or-append_length [] ys d = refl
  get_or-append_length (x ∷ xs) ys d = get_or-append_length xs ys d

  pub get_or_beyond : (xs : List H) (i : ℕ) (d : H) → length xs ≤ i → get_or xs i d ≡ d
  get_or_beyond [] i d h = refl
  get_or_beyond (x ∷ xs) zero d h = absurd (omega arith)
  get_or_beyond (x ∷ xs) (suc i) d h = get_or_beyond xs i d (omega arith)

-- The test of `append`: the leaves up to position `n` fill a tree of `depth` levels.
full_iff :
    (n depth : ℕ)
    → depth ≤ 64
    → suc n ≤ 2 ^ depth
    → is_complete_subtree n depth ≡ not (ltb (suc n) (2 ^ depth))
full_iff n depth room le =
    let e : n + 1 ≡ suc n = omega arith in
    elim (lt_or_le (suc n) (2 ^ depth)) [
      | inl lt ↦ rw (lt→ltb (suc n) (2 ^ depth) lt) (
          ground (
            arith,
            rw e at (is_complete_subtree_iff n depth room),
            mod-eq_of_lt {n = suc n} {m = 2 ^ depth} lt,
          ))
      | inr ge ↦
          let full : suc n ≡ 2 ^ depth = omega arith in
          rw (le→ltb (suc n) (2 ^ depth) ge)
            ((is_complete_subtree_iff n depth room).1 (rw (e, full) (mod_self (2 ^ depth))))
    ]

module _ {ℓ} {H : Type ℓ} ⦃h : Hashable H⦄ where
  -- Leaf `i` of a list, an empty leaf behind its end.
  abbrev pub leaf_of : List H → ℕ → H
  leaf_of xs i = get_or xs i h.empty_leaf

  -- The root of the complete tree of `depth` levels over a list of leaves.
  abbrev pub tree_root : ℕ → List H → H
  tree_root depth xs = node (leaf_of xs) depth 0

  -- The frontier that stands for a list.
  abbrev pub frontier_of : List H → Frontier H
  frontier_of [] = record { frontier = none }
  frontier_of (x ∷ xs) = record { frontier = some (frontier_at (leaf_of (x ∷ xs)) (length xs)) }

  ommers_ext :
      (f g : ℕ → H) (n l q p : ℕ)
      → ((i : ℕ) → i ≤ p → f i ≡ g i)
      → q * 2 ^ l ≤ p + 1
      → ommers_at f n l q ≡ ommers_at g n l q
  ommers_ext f g zero l q p same le = ommers_zero f l q ∙ sym (ommers_zero g l q)
  ommers_ext f g (suc n) l q p same le =
      let rest = ommers_ext f g n (suc l) (q / 2) p same (
        omega (
          arith,
          le,
          ap (λ (t : ℕ). q / 2 * t) (pow_double l),
          mul-le-mul_right {m = 2 * (q / 2)} {n = q} (2 ^ l) (omega arith),
        )) in
      elim (parity q) [
        | inl odd ↦
            let whole : q - 1 + 1 ≡ q = omega arith in
            ommers_odd f n l q odd
            ∙ ap₂ ◌∷◌
                (node_ext f g l (q - 1)
                  (λ j lo hi. same j (omega (arith, le, ap (λ (t : ℕ). t * 2 ^ l) whole))))
                rest
            ∙ sym (ommers_odd g n l q odd)
        | inr even ↦ ommers_even f n l q even ∙ rest ∙ sym (ommers_even g n l q even)
      ]

  -- Only the leaves up to the position matter.
  frontier_ext :
      (f g : ℕ → H) (p : ℕ) → ((i : ℕ) → i ≤ p → f i ≡ g i) → frontier_at f p ≡ frontier_at g p
  frontier_ext f g p same =
      ap₂ (λ leaf ommers. record { position = p; leaf = leaf; ommers = ommers })
        (same p (omega arith)) (ommers_ext f g 64 0 p p same (omega arith))

  new_eq : (v : H) → NonEmpty.new v ≡ frontier_at (leaf_of (v ∷ [])) 0
  unfolding NonEmpty.new
  new_eq v =
      ap (λ ommers. record { position = 0; leaf = v; ommers = ommers })
        (sym (ommers_none (leaf_of (v ∷ [])) 64 0))

  -- The frontier of one more leaf, from the old one.
  append_next :
      (x : H) (xs : List H) (v : H)
      → length xs + 1 < 2 ^ 64
      → NonEmpty.append (frontier_at (leaf_of (x ∷ xs)) (length xs)) v
        ≡ some (frontier_at (leaf_of (x ∷ xs ++ v ∷ [])) (length (xs ++ v ∷ [])))
  append_next x xs v fits =
      let ys = x ∷ xs ++ v ∷ [] in
      let grown : length (xs ++ v ∷ []) ≡ length xs + 1 = length-append xs (v ∷ []) in
      let next : length xs + 1 ≡ suc (length xs) = omega arith in
      let last : leaf_of ys (length xs + 1) ≡ v =
        rw next (get_or-append_length xs (v ∷ []) h.empty_leaf) in
      let old : frontier_at (leaf_of (x ∷ xs)) (length xs) ≡ frontier_at (leaf_of ys) (length xs) =
        frontier_ext (leaf_of (x ∷ xs)) (leaf_of ys) (length xs)
          (λ i le. sym (get_or-append_left (x ∷ xs) (v ∷ []) i h.empty_leaf (omega arith))) in
      rw (old, grown)
        (ap (NonEmpty.append (frontier_at (leaf_of ys) (length xs))) (sym last)
          ∙ append-frontier_at (leaf_of ys) (length xs) fits)

  -- On the frontier of a list of at most 2^depth leaves, for a depth of at most 63, append
  -- does not panic: with fewer than 2^depth leaves it gives the frontier of the list with the
  -- new leaf at its end and reports success, otherwise it changes nothing and reports failure.
  pub append-refines :
      (depth : ℕ) (xs : List H) (v : H)
      → depth ≤ 63
      → length xs ≤ 2 ^ depth
      → append depth (frontier_of xs) v
        ≡ some (
            if ltb (length xs) (2 ^ depth)
            then (frontier_of (xs ++ v ∷ []), true)
            else (frontier_of xs, false))
  unfolding append
  append-refines depth [] v room le =
      rw (lt→ltb 0 (2 ^ depth) (omega (arith, pow_pos depth)), new_eq v) refl
  append-refines depth (x ∷ xs) v room le =
      rw
        (
          full_iff (length xs) depth (omega arith) le,
          append_next x xs v (omega (arith, le, pow_mono depth 63 room)),
        )
        (elim (Bool-cases (ltb (suc (length xs)) (2 ^ depth))) [
          | inl more ↦ rw more refl
          | inr full ↦ rw full refl
        ])

  -- For a list of at most 2^depth and fewer than 2^64 leaves, at a depth of at most 64, the
  -- root that its frontier computes from the ommers is the root of the complete tree over the
  -- list, with empty leaves filling it up.
  pub root-refines :
      (depth : ℕ) (xs : List H)
      → depth ≤ 64
      → length xs ≤ 2 ^ depth
      → length xs < 2 ^ 64
      → root depth (frontier_of xs) ≡ some (tree_root depth xs)
  unfolding root
  root-refines depth [] room le fits = ap some (sym (node_empty depth 0))
  root-refines depth (x ∷ xs) room le fits =
      root-frontier_at (leaf_of (x ∷ xs)) (length xs) (omega arith) depth le (omega arith)
      ∙ ap some (
          node_ext (until (length xs) (leaf_of (x ∷ xs))) (leaf_of (x ∷ xs)) depth 0
            (λ j lo hi. padded j))
    where
      padded : (j : ℕ) → until (length xs) (leaf_of (x ∷ xs)) j ≡ leaf_of (x ∷ xs) j
      padded j = elim (lt_or_le (length xs) j) [
        | inl lt ↦ rw (lt→ltb (length xs) j lt) (sym (get_or_beyond (x ∷ xs) j h.empty_leaf lt))
        | inr le ↦ rw (le→ltb (length xs) j le) refl
      ]

  -- For a list of fewer than 2^64 leaves, the size of its frontier is the number of the
  -- leaves.
  pub tree_size-refines :
      (xs : List H) → length xs < 2 ^ 64 → tree_size (frontier_of xs) ≡ length xs
  unfolding tree_size
  tree_size-refines [] fits = refl
  tree_size-refines (x ∷ xs) fits = omega arith
