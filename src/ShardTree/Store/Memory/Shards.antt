-- ===== src/ShardTree/Store/Memory/Shards.antt =====
-- The vector of shards of a `MemoryShardStore`: which shard stands at an index, and what a shard put
-- into the vector does to the others.
use incrementalmerkletree.Prelude.{
  ℕ, zero, suc, ◌+◌, ◌-◌, ◌<◌, ◌≤◌, ◌^◌, some, none, List, [], ◌∷◌, ◌++◌, if◌then◌else◌, ltb, ◌==◌,
  false, length, get_elem?, set, take, u64, ◌≡◌, ◌≢◌, refl, sym, ap, ◌∙◌, arith, subst,
  length-append, zero-add, add-zero, suc-add-suc, length-set, get_elem?-set_same,
  get_elem?-set_other, get_elem?-append_lt, get_elem?-append_ge, get_elem?-length, inl, inr, lt→ltb,
  le→ltb, Bool-cases, ==_iff, lt_or_le, some_injective,
}
use native.Mathlib.Nat.{mod-eq_of_lt}
use incrementalmerkletree.Level.{Level}
use incrementalmerkletree.Address.{Address}
use incrementalmerkletree.ShardTree.Tree.{nil}
use incrementalmerkletree.ShardTree.Prunable.Located.{LocatedPrunableTree}
use incrementalmerkletree.ShardTree.Store.Memory.{last, fill, grow, put_in, index_after}

abbrev pub addr : Level → ℕ → Address
addr level index = record { level = level; index = index }

module _ {ℓ} {H : Type ℓ} (level : Level) where
  -- The shards stand at consecutive indices of one level.
  unfoldable pub IsAddressed : ℕ → List (LocatedPrunableTree H) → Type 0
  IsAddressed i [] = Unit
  IsAddressed i (s ∷ ss) = (s.root_addr ≡ addr level i) × IsAddressed (suc i) ss

  pub append-IsAddressed :
      (i : ℕ) (xs ys : List (LocatedPrunableTree H))
      → IsAddressed i xs
      → IsAddressed (i + length xs) ys
      → IsAddressed i (xs ++ ys)
  unfolding IsAddressed
  append-IsAddressed i [] ys h k = subst (λ j. IsAddressed j ys) (omega arith) k
  append-IsAddressed i (x ∷ xs) ys (h, hs) k =
      (h, append-IsAddressed (suc i) xs ys hs (subst (λ j. IsAddressed j ys) (omega arith) k))

  pub set-IsAddressed :
      (i k : ℕ) (xs : List (LocatedPrunableTree H)) (t : LocatedPrunableTree H)
      → t.root_addr ≡ addr level (i + k)
      → IsAddressed i xs
      → IsAddressed i (set xs k t)
  unfolding IsAddressed
  set-IsAddressed i k [] t e h = tt
  set-IsAddressed i zero (x ∷ xs) t e (h, hs) = (e ∙ ap (addr level) (omega arith), hs)
  set-IsAddressed i (suc k) (x ∷ xs) t e (h, hs) =
      (h, set-IsAddressed (suc i) k xs t (e ∙ ap (addr level) (omega arith)) hs)

  pub take-IsAddressed :
      (i n : ℕ) (xs : List (LocatedPrunableTree H)) → IsAddressed i xs → IsAddressed i (take n xs)
  unfolding IsAddressed
  take-IsAddressed i zero xs h = tt
  take-IsAddressed i (suc n) [] h = tt
  take-IsAddressed i (suc n) (x ∷ xs) (h, hs) = (h, take-IsAddressed (suc i) n xs hs)

  -- A shard found at an index has this index.
  pub get_elem?-IsAddressed :
      (i k : ℕ) (xs : List (LocatedPrunableTree H)) {t : LocatedPrunableTree H}
      → IsAddressed i xs
      → get_elem? xs k ≡ some t
      → t.root_addr ≡ addr level (i + k)
  unfolding IsAddressed
  get_elem?-IsAddressed i k [] h e = cc
  get_elem?-IsAddressed i zero (x ∷ xs) (h, hs) e =
      ap (λ a. a.root_addr) (some_injective (sym e)) ∙ h ∙ ap (addr level) (add-zero i)
  get_elem?-IsAddressed i (suc k) (x ∷ xs) (h, hs) e =
      get_elem?-IsAddressed (suc i) k xs hs e ∙ ap (addr level) (omega arith)

  index_after-last :
      (i : ℕ) (x : LocatedPrunableTree H) (xs : List (LocatedPrunableTree H))
      → IsAddressed i (x ∷ xs)
      → index_after (last (x ∷ xs)) ≡ u64 (i + suc (length xs))
  unfolding IsAddressed
  index_after-last i x [] (h, _) = ap (λ a. u64 (a.index + 1)) h
  index_after-last i x (y ∷ xs) (h, hs) = index_after-last (suc i) y xs hs ∙ ap u64 (omega arith)

  -- The index after the last shard is the number of shards.
  pub index_after-length :
      (xs : List (LocatedPrunableTree H))
      → IsAddressed 0 xs
      → length xs < 2 ^ 64
      → index_after (last xs) ≡ length xs
  index_after-length [] h lt = refl
  index_after-length (x ∷ xs) h lt =
      index_after-last 0 x xs h ∙ ap u64 (zero-add (suc (length xs))) ∙ mod-eq_of_lt lt

module _ {ℓ} (H : Type ℓ) (level : Level) where
  pub fill-IsAddressed : (i n : ℕ) → IsAddressed level i (fill {H = H} level i n)
  unfolding IsAddressed fill
  fill-IsAddressed i zero = tt
  fill-IsAddressed i (suc n) = (refl, fill-IsAddressed (suc i) n)

  pub length-fill : (i n : ℕ) → length (fill {H = H} level i n) ≡ n
  unfolding fill
  length-fill i zero = refl
  length-fill i (suc n) = ap suc (length-fill (suc i) n)

  pub get_elem?-fill :
      (i n k : ℕ)
      → k < n
      → get_elem? (fill {H = H} level i n) k
        ≡ some (record { root_addr = addr level (i + k); root = nil })
  unfolding fill
  get_elem?-fill i zero k h = absurd (omega arith)
  get_elem?-fill i (suc n) zero h =
      ap (λ j. some (record { root_addr = addr level j; root = nil })) (add-zero i)
  get_elem?-fill i (suc n) (suc k) h =
      get_elem?-fill (suc i) n k (omega arith)
      ∙ ap (λ j. some (record { root_addr = addr level j; root = nil })) (suc-add-suc i k)

module _ {ℓ} {H : Type ℓ} (level : Level) where
  -- What `put_shard` makes of the vector, when its shards stand at their indices.
  abbrev pub put_result :
      ℕ → LocatedPrunableTree H → List (LocatedPrunableTree H) → List (LocatedPrunableTree H)
  put_result idx t xs = set (xs ++ fill level (length xs) (suc idx - length xs)) idx t

  pub length-put_result :
      (idx : ℕ) (t : LocatedPrunableTree H) (xs : List (LocatedPrunableTree H))
      → length (put_result idx t xs) ≡ length xs + (suc idx - length xs)
  length-put_result idx t xs =
      length-set (xs ++ fill level (length xs) (suc idx - length xs)) idx t
      ∙ length-append xs (fill level (length xs) (suc idx - length xs))
      ∙ ap (λ n. length xs + n) (length-fill H level (length xs) (suc idx - length xs))

  pub put_in-put_result :
      (idx : ℕ) (t : LocatedPrunableTree H) (xs : List (LocatedPrunableTree H))
      → IsAddressed level 0 xs
      → length xs < 2 ^ 64
      → t.root_addr ≡ addr level idx
      → put_in t xs ≡ some (put_result idx t xs)
  unfolding put_in grow
  put_in-put_result idx t xs h fits e =
      rw
        (
          e,
          index_after-length level xs h fits,
          lt→ltb idx (length (xs ++ fill level (length xs) (suc idx - length xs))) inside,
        )
        refl
    where
      inside : idx < length (xs ++ fill level (length xs) (suc idx - length xs))
      inside = omega (
        arith,
        length-append xs (fill {H = H} level (length xs) (suc idx - length xs)),
        length-fill H level (length xs) (suc idx - length xs),
      )

  pub put_result-IsAddressed :
      (idx : ℕ) (t : LocatedPrunableTree H) (xs : List (LocatedPrunableTree H))
      → IsAddressed level 0 xs
      → t.root_addr ≡ addr level idx
      → IsAddressed level 0 (put_result idx t xs)
  put_result-IsAddressed idx t xs h e =
      set-IsAddressed level 0 idx (xs ++ fill level (length xs) (suc idx - length xs)) t
        (e ∙ ap (addr level) (sym (zero-add idx)))
        (append-IsAddressed level 0 xs (fill level (length xs) (suc idx - length xs)) h (
          subst (λ n. IsAddressed level n (fill {H = H} level (length xs) (suc idx - length xs)))
            (sym (zero-add (length xs)))
            (fill-IsAddressed H level (length xs) (suc idx - length xs))))

  -- The shards in the vector before and after: the new one, the old ones, and empty ones between.
  pub get_elem?-put_result :
      (idx : ℕ) (t : LocatedPrunableTree H) (xs : List (LocatedPrunableTree H)) (j : ℕ)
      → get_elem? (put_result idx t xs) j ≡ (
          if j == idx
          then some t
          else if ltb j (length xs)
          then get_elem? xs j
          else if ltb j idx
          then some (record { root_addr = addr level j; root = nil })
          else none)
  get_elem?-put_result idx t xs j = elim (Bool-cases (j == idx)) [
    | inl e ↦
        rw (e, (==_iff j idx).0 e) (get_elem?-set_same (xs ++ added) idx t (omega (arith, grown)))
    | inr ne ↦ rw ne (
        get_elem?-set_other (xs ++ added) idx j t (λ p. differ ne (sym p))
        ∙ elim (lt_or_le j (length xs)) [
          | inl l ↦ rw (lt→ltb j (length xs) l) (get_elem?-append_lt xs added j l)
          | inr l ↦ rw (le→ltb j (length xs) l) (elim (lt_or_le j idx) [
            | inl m ↦ rw (lt→ltb j idx m) (between l m)
            | inr m ↦ rw (le→ltb j idx m) (get_elem?-length (xs ++ added) j (past ne l m))
          ])
        ])
  ]
    where
      added : List (LocatedPrunableTree H)
      added = fill level (length xs) (suc idx - length xs)

      grown : length (xs ++ added) ≡ length xs + (suc idx - length xs)
      grown =
          length-append xs added
          ∙ ap (λ n. length xs + n) (length-fill H level (length xs) (suc idx - length xs))

      differ : (j == idx) ≡ false → j ≢ idx
      differ ne p = ground arith

      past : (j == idx) ≡ false → length xs ≤ j → idx ≤ j → length (xs ++ added) ≤ j
      past ne l m = ground (arith, grown)

      between :
          length xs ≤ j
          → j < idx
          → get_elem? (xs ++ added) j ≡ some (record { root_addr = addr level j; root = nil })
      between l m =
          subst
            (λ k.
              get_elem? (xs ++ added) k ≡ some (record { root_addr = addr level k; root = nil }))
            (omega arith)
            (get_elem?-append_ge xs added (j - length xs)
              ∙ get_elem?-fill H level (length xs) (suc idx - length xs) (j - length xs)
                  (omega arith))
