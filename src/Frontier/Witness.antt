-- ===== src/Frontier/Witness.antt =====
-- `NonEmptyFrontier::witness` where the nodes right of the path are supplied.
use incrementalmerkletree.Prelude.{
  ℕ, zero, suc, ◌+◌, ◌/◌, ◌%◌, ◌^◌, ◌≤◌, ◌<◌, ◌≡◌, refl, arith, Option, some, List, length, ◌∙◌,
  drop, get_elem?-drop, drop-suc, inl, inr, ok, bit_xor, pow_mono,
}
use incrementalmerkletree.Prelude.Bits.{bit_xor-one}
use incrementalmerkletree.Position.{Position}
use incrementalmerkletree.Address.{Address}
use incrementalmerkletree.Hashable.{Hashable, MerklePath}
use incrementalmerkletree.Hashable
use incrementalmerkletree.Hashable.Node.{node}
use incrementalmerkletree.Hashable.Path.{siblings, root-siblings, length-siblings, parity}
use incrementalmerkletree.WitnessAddrs.Items.{
  path_items, items_odd, items_even, items_zero, witness_addrs_items,
}
use incrementalmerkletree.Frontier.{witness_elems, witness}
use incrementalmerkletree.Frontier.Ommers.{
  ommers_at, frontier_at, ommers_odd, ommers_even, ommers_stable,
}

module _ {ℓ} {H : Type ℓ} ⦃h : Hashable H⦄ (f : ℕ → H) (complement_nodes : Address → Option H)
    (supplied : (a : Address) → complement_nodes a ≡ some (node f a.level a.index)) where
  even_xor : (q : ℕ) → q % 2 ≡ 0 → bit_xor q 1 ≡ q + 1
  even_xor q even = omega (arith, bit_xor-one q)

  elems_siblings :
      (os : List H) (n l q c : ℕ)
      → drop c os ≡ ommers_at f n l q
      → witness_elems os complement_nodes (path_items n l q c) ≡ some (ok (siblings f n l q))
  unfolding witness_elems siblings
  elems_siblings os zero l q c e = rw items_zero refl
  elems_siblings os (suc n) l q c e = elim (parity q) [
    | inl odd ↦
        let e' = e ∙ ommers_odd f n l q odd in
        rw
          (
            items_odd n l q c odd,
            get_elem?-drop c os e',
            elems_siblings os n (suc l) (q / 2) (suc c) (drop-suc c os e'),
            odd,
          )
          refl
    | inr even ↦
        rw
          (
            items_even n l q c even,
            supplied (record { level = l; index = bit_xor q 1 }),
            elems_siblings os n (suc l) (q / 2) c (e ∙ ommers_even f n l q even),
            even_xor q even,
            even,
          )
          refl
  ]

  -- Where the caller supplies every node it is asked for, the witness of the last leaf of a
  -- frontier, at a depth of at most 64 that holds the leaf, is a path of as many elements
  -- whose root is the root of the tree at that depth.
  pub witness-frontier_at :
      (p : Position) (depth : ℕ)
      → p < 2 ^ depth
      → depth ≤ 64
      → (path : List H) × (witness (frontier_at f p) depth complement_nodes ≡ some (ok path))
        × (length path ≡ depth)
        × (Hashable.root (record { path_elems = path; position = p }) (f p) ≡ node f depth 0)
  unfolding witness
  witness-frontier_at p depth held room = (
    siblings f depth 0 p,
    rw (witness_addrs_items p depth (omega arith)) (
        elems_siblings (ommers_at f 64 0 p) depth 0 p 0
          (ommers_stable f 64 depth 0 p (omega (arith, pow_mono depth 64 room)) held)),
    length-siblings f depth 0 p,
    root-siblings f p depth held room,
  )
