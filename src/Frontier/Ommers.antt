-- ===== src/Frontier/Ommers.antt =====
-- The frontier that stands for the leaves `f 0` to `f p`, and its number of ommers.
use incrementalmerkletree.Prelude.{
  ℕ, zero, suc, ◌-◌, ◌/◌, ◌%◌, ◌^◌, ◌<◌, ◌≡◌, refl, arith, List, [], ◌∷◌, if◌then◌else◌, ◌==◌,
  length, ok, err, ◌∙◌, pow_double, sym, ==_iff, ◌⊎◌, ◌≢◌, inl, inr, Bool-cases, true, false,
}
use incrementalmerkletree.Position.{Position, past_ommer_count}
use incrementalmerkletree.Position.Digits.{ones, past_ommer_count_eq}
use incrementalmerkletree.Hashable.{Hashable}
use incrementalmerkletree.Hashable.Node.{node}
use incrementalmerkletree.Frontier.{NonEmptyFrontier, from_parts, position_mismatch}

module _ {ℓ} {H : Type ℓ} ⦃h : Hashable H⦄ where
  -- For each set digit of `q`, from level `l` up, the node left of the path.
  unfoldable pub ommers_at : (ℕ → H) → ℕ → ℕ → ℕ → List H
  ommers_at f zero l q = []
  ommers_at f (suc n) l q =
      let rest = ommers_at f n (suc l) (q / 2) in
      if q % 2 == 1 then node f l (q - 1) ∷ rest else rest

  -- The frontier of the leaves `f 0`, …, `f p`.
  abbrev pub frontier_at : (ℕ → H) → ℕ → NonEmptyFrontier H
  frontier_at f p = record { position = p; leaf = f p; ommers = ommers_at f 64 0 p }

  pub ommers_odd :
      (f : ℕ → H) (n l q : ℕ)
      → q % 2 ≡ 1
      → ommers_at f (suc n) l q ≡ node f l (q - 1) ∷ ommers_at f n (suc l) (q / 2)
  unfolding ommers_at
  ommers_odd f n l q odd = rw odd refl

  pub ommers_even :
      (f : ℕ → H) (n l q : ℕ) → q % 2 ≡ 0 → ommers_at f (suc n) l q ≡ ommers_at f n (suc l) (q / 2)
  unfolding ommers_at
  ommers_even f n l q even = rw even refl

  pub ommers_zero : (f : ℕ → H) (l q : ℕ) → ommers_at f zero l q ≡ []
  unfolding ommers_at
  ommers_zero f l q = refl

  -- Levels above the highest set digit add nothing.
  pub ommers_none : (f : ℕ → H) (n l : ℕ) → ommers_at f n l 0 ≡ []
  unfolding ommers_at
  ommers_none f zero l = refl
  ommers_none f (suc n) l = ommers_none f n (suc l)

  pub ommers_stable :
      (f : ℕ → H) (n m l q : ℕ) → q < 2 ^ n → q < 2 ^ m → ommers_at f n l q ≡ ommers_at f m l q
  unfolding ommers_at
  ommers_stable f zero m l q hn hm = let e : q ≡ 0 = omega arith in rw e (sym (ommers_none f m l))
  ommers_stable f (suc n) zero l q hn hm =
      let e : q ≡ 0 = omega arith in rw e (ommers_none f n (suc l))
  ommers_stable f (suc n) (suc m) l q hn hm =
      rw
        (ommers_stable f n m (suc l) (q / 2) (omega (arith, pow_double n))
          (omega (arith, pow_double m)))
        refl

  pub length-ommers_at : (f : ℕ → H) (n l q : ℕ) → length (ommers_at f n l q) ≡ ones n q
  unfolding ommers_at
  length-ommers_at f zero l q = refl
  length-ommers_at f (suc n) l q = ground (arith, length-ommers_at f n (suc l) (q / 2))

  pub count-ommers_at :
      (f : ℕ → H) (p : Position) → p < 2 ^ 64 → length (ommers_at f 64 0 p) ≡ past_ommer_count p
  count-ommers_at f p hp = length-ommers_at f 64 0 p ∙ sym (past_ommer_count_eq p hp)

  pub from_parts-frontier_at :
      (f : ℕ → H) (p : Position)
      → p < 2 ^ 64
      → from_parts p (f p) (ommers_at f 64 0 p) ≡ ok (frontier_at f p)
  unfolding from_parts
  from_parts-frontier_at f p hp = rw ((==_iff _ _).1 (count-ommers_at f p hp)) refl

  -- For a position of 64 bits, from_parts makes the frontier of the given parts if the ommers
  -- are as many as the set digits of the position, and otherwise fails with the error that
  -- says how many they should be.
  pub from_parts-ones :
      (p : Position) (v : H) (ommers : List H)
      → p < 2 ^ 64
      → ((length ommers ≡ ones 64 p)
          × (from_parts p v ommers ≡ ok (record { position = p; leaf = v; ommers = ommers })))
        ⊎ ((length ommers ≢ ones 64 p)
            × (from_parts p v ommers ≡ err (position_mismatch (ones 64 p))))
  unfolding from_parts
  from_parts-ones p v ommers hp =
      rw (past_ommer_count_eq p hp) (elim (Bool-cases (length ommers == ones 64 p)) [
        | inl same ↦ inl ((==_iff _ _).0 same, rw same refl)
        | inr other ↦ inr (
          (λ same. let bad : true ≡ false = sym ((==_iff _ _).1 same) ∙ other in absurd cc),
          rw other refl,
        )
      ])
