-- ===== src/Hashable/Path.antt =====
-- `MerklePath::root` along the siblings of a path.
use incrementalmerkletree.Prelude.{
  ◌∙◌, ℕ, zero, suc, ◌+◌, ◌-◌, ◌*◌, ◌/◌, ◌%◌, ◌^◌, ◌≤◌, ◌<◌, ◌≡◌, refl, arith, List, [], ◌∷◌,
  if◌then◌else◌, ◌==◌, length, ap, ap₂, sym, div_pow_suc, div_pow_zero, inl, inr, ◌⊎◌, shr-lt,
}
use native.Mathlib.Nat.{div-eq_of_lt}
use incrementalmerkletree.Prelude.Bits.{bit_and-one}
use incrementalmerkletree.Position.{Position}
use incrementalmerkletree.Hashable.{Hashable, root, root_from}
use incrementalmerkletree.Hashable.Node.{node}

pub parity : (q : ℕ) → (q % 2 ≡ 1) ⊎ (q % 2 ≡ 0)
parity q = omega arith

module _ {ℓ} {H : Type ℓ} ⦃h : Hashable H⦄ where
  -- The other child of the parent of node `q`.
  abbrev pub sibling_node : (ℕ → H) → ℕ → ℕ → H
  sibling_node f l q = if q % 2 == 1 then node f l (q - 1) else node f l (q + 1)

  -- The siblings of the nodes on the path up from node `q` of level `l`.
  unfoldable pub siblings : (ℕ → H) → ℕ → ℕ → ℕ → List H
  siblings f zero l q = []
  siblings f (suc n) l q = sibling_node f l q ∷ siblings f n (suc l) (q / 2)

  pub length-siblings : (f : ℕ → H) (n l q : ℕ) → length (siblings f n l q) ≡ n
  unfolding siblings
  length-siblings f zero l q = refl
  length-siblings f (suc n) l q = ap suc (length-siblings f n (suc l) (q / 2))

  -- A node and its sibling make their parent.
  pub combine_odd :
      (f : ℕ → H) (l q : ℕ)
      → q % 2 ≡ 1
      → h.combine l (node f l (q - 1)) (node f l q) ≡ node f (suc l) (q / 2)
  combine_odd f l q odd =
      let left : 2 * (q / 2) ≡ q - 1 = omega arith in
      let right : 2 * (q / 2) + 1 ≡ q = omega arith in
      ap₂ (λ i j. h.combine l (node f l i) (node f l j)) (sym left) (sym right)

  pub combine_even :
      (f : ℕ → H) (l q : ℕ)
      → q % 2 ≡ 0
      → h.combine l (node f l q) (node f l (q + 1)) ≡ node f (suc l) (q / 2)
  combine_even f l q even =
      let left : 2 * (q / 2) ≡ q = omega arith in
      let right : 2 * (q / 2) + 1 ≡ q + 1 = omega arith in
      ap₂ (λ i j. h.combine l (node f l i) (node f l j)) (sym left) (sym right)

  -- One step of the fold, at a level that a position of 64 bits has.
  root_from_odd :
      (p : Position) (l : ℕ) (v e : H) (es : List H)
      → l < 64
      → p / 2 ^ l % 2 ≡ 1
      → root_from p l v (e ∷ es) ≡ root_from p (suc l) (h.combine l e v) es
  unfolding root_from
  root_from_odd p l v e es room odd =
      let up : (l + 1) % 2 ^ 8 ≡ suc l = omega arith in
      rw (shr-lt p l room, bit_and-one (p / 2 ^ l), odd, up) refl

  root_from_even :
      (p : Position) (l : ℕ) (v e : H) (es : List H)
      → l < 64
      → p / 2 ^ l % 2 ≡ 0
      → root_from p l v (e ∷ es) ≡ root_from p (suc l) (h.combine l v e) es
  unfolding root_from
  root_from_even p l v e es room even =
      let up : (l + 1) % 2 ^ 8 ≡ suc l = omega arith in
      rw (shr-lt p l room, bit_and-one (p / 2 ^ l), even, up) refl

  siblings_odd :
      (f : ℕ → H) (n l q : ℕ)
      → q % 2 ≡ 1
      → siblings f (suc n) l q ≡ node f l (q - 1) ∷ siblings f n (suc l) (q / 2)
  unfolding siblings
  siblings_odd f n l q odd = rw odd refl

  siblings_even :
      (f : ℕ → H) (n l q : ℕ)
      → q % 2 ≡ 0
      → siblings f (suc n) l q ≡ node f l (q + 1) ∷ siblings f n (suc l) (q / 2)
  unfolding siblings
  siblings_even f n l q even = rw even refl

  siblings-zero : (f : ℕ → H) (l q : ℕ) → siblings f zero l q ≡ []
  unfolding siblings
  siblings-zero f l q = refl

  root_from_nil : (p : Position) (l : ℕ) (v : H) → root_from p l v [] ≡ v
  unfolding root_from
  root_from_nil p l v = refl

  root_from-siblings :
      (f : ℕ → H) (p : Position) (n l : ℕ)
      → l + n ≤ 64
      → root_from p l (node f l (p / 2 ^ l)) (siblings f n l (p / 2 ^ l))
        ≡ node f (l + n) (p / 2 ^ (l + n))
  root_from-siblings f p zero l room =
      let z : l + 0 ≡ l = omega arith in rw (z, siblings-zero, root_from_nil) refl
  root_from-siblings f p (suc n) l room =
      let q = p / 2 ^ l in
      let later : l + suc n ≡ suc l + n = omega arith in
      elim (parity q) [
        | inl odd ↦
            rw
              (
                siblings_odd f n l q odd,
                root_from_odd p l (node f l q) (node f l (q - 1)) (siblings f n (suc l) (q / 2))
                    (omega arith) odd,
                combine_odd f l q odd,
                ← div_pow_suc p l,
                later,
              )
              (root_from-siblings f p n (suc l) (omega arith))
        | inr even ↦
            rw
              (
                siblings_even f n l q even,
                root_from_even p l (node f l q) (node f l (q + 1)) (siblings f n (suc l) (q / 2))
                    (omega arith) even,
                combine_even f l q even,
                ← div_pow_suc p l,
                later,
              )
              (root_from-siblings f p n (suc l) (omega arith))
      ]

  pub root-siblings-node :
      (f : ℕ → H) (p : Position) (n : ℕ)
      → n ≤ 64
      → root (record { path_elems = siblings f n 0 p; position = p }) (f p) ≡ node f n (p / 2 ^ n)
  unfolding root
  root-siblings-node f p n room =
      let whole : 0 + n ≡ n = omega arith in
      rw (div_pow_zero p, whole) at (root_from-siblings f p n 0 (omega arith))

  -- For a position of a tree of at most 64 levels, the Merkle path made of the siblings on the
  -- way up leads from the leaf to the root of the tree.
  pub root-siblings :
      (f : ℕ → H) (p : Position) (n : ℕ)
      → p < 2 ^ n
      → n ≤ 64
      → root (record { path_elems = siblings f n 0 p; position = p }) (f p) ≡ node f n 0
  root-siblings f p n held room = root-siblings-node f p n room ∙ ap (node f n) (div-eq_of_lt held)
