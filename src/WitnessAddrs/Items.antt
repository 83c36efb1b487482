-- ===== src/WitnessAddrs/Items.antt =====
-- The items of `witness_addrs`, level by level.
use incrementalmerkletree.Prelude.{
  ℕ, zero, suc, ◌+◌, ◌/◌, ◌%◌, ◌<◌, ◌≡◌, refl, arith, some, none, List, [], ◌-◌, ◌≤◌, ap₂, ◌∙◌, ◌∷◌,
  if◌then◌else◌, ◌==◌, bit_xor, ap,
}
use incrementalmerkletree.Prelude.Bits.{bit_and-one}
use incrementalmerkletree.Retention.{Source, past, future}
use incrementalmerkletree.Level.{Level}
use incrementalmerkletree.Position.{Position}
use incrementalmerkletree.Address.{Address}
use incrementalmerkletree.WitnessAddrs.{WitnessAddrsIter, next, collect, witness_addrs}

-- `n` steps up from the node of level `l` and index `q`, after `c` ommers.
unfoldable pub path_items : ℕ → ℕ → ℕ → ℕ → List (Address × Source)
path_items zero l q c = []
path_items (suc n) l q c =
    (record { level = l; index = bit_xor q 1 }, (if q % 2 == 1 then past c else future))
    ∷ path_items n (suc l) (q / 2) (c + q % 2)

abbrev pub iter_at : ℕ → ℕ → ℕ → ℕ → WitnessAddrsIter
iter_at l q c end = record {
  root_level = end;
  current = record { level = l; index = q };
  ommer_count = c;
}

next_eq :
    (l q c end : ℕ)
    → l < end
    → end < 256
    → c < 255
    → next (iter_at l q c end)
      ≡ some (
        (record { level = l; index = bit_xor q 1 }, (if q % 2 == 1 then past c else future)),
        iter_at (suc l) (q / 2) (c + q % 2) end,
      )
unfolding next
next_eq l q c end h top room = ground (arith, bit_and-one q)

next_end : (q c end : ℕ) → next (iter_at end q c end) ≡ none
unfolding next
next_end q c end = ground arith

collect_end : (more q c end : ℕ) → collect more (iter_at end q c end) ≡ []
unfolding collect
collect_end zero q c end = refl
collect_end (suc more) q c end = rw (next_end q c end, collect) refl

-- Calls beyond the number of levels yield no more items.
collect_eq :
    (n more l q c end : ℕ)
    → l + n ≡ end
    → end < 256
    → c + n < 256
    → collect (n + more) (iter_at l q c end) ≡ path_items n l q c
unfolding collect path_items
collect_eq zero more l q c end e top room =
    ap₂ (λ (k m : ℕ). collect k (iter_at m q c end))
      (let same : 0 + more ≡ more = omega arith in same) (let last : l ≡ end = omega arith in last)
    ∙ collect_end more q c end
collect_eq (suc n) more l q c end e top room =
    let calls : suc n + more ≡ suc (n + more) = omega arith in
    ap (λ k. collect k (iter_at l q c end)) calls
    ∙ (rw (next_eq l q c end (omega arith) top (omega arith), collect)
        (ap
          (λ (t : List (Address × Source)).
            (record { level = l; index = bit_xor q 1 }, (if q % 2 == 1 then past c else future))
            ∷ t)
          (collect_eq n more (suc l) (q / 2) (c + q % 2) end (omega arith) top (omega arith))))

-- Enough calls of the iterator from the leaf up.
path_eq :
    (p : Position) (root_level calls : ℕ)
    → root_level < 256
    → root_level ≤ calls
    → collect calls (iter_at 0 p 0 root_level) ≡ path_items root_level 0 p 0
path_eq p root_level calls h le =
    let all : calls ≡ root_level + (calls - root_level) = omega arith in
    ap (λ k. collect k (iter_at 0 p 0 root_level)) all
    ∙ collect_eq root_level (calls - root_level) 0 p 0 root_level (omega arith) h (omega arith)

pub witness_addrs_items :
    (p : Position) (root_level : Level)
    → root_level < 256
    → witness_addrs p root_level ≡ path_items root_level 0 p 0
unfolding witness_addrs
witness_addrs_items p root_level h = path_eq p root_level root_level h (omega arith)

-- For a root level below 256 the authentication path of a position is the list of the siblings
-- on the way up, each past one with the number of past ones before it; and the iterator is
-- exhausted then: however many more calls are made, it yields these items.
pub witness_addrs_eq :
    (p : Position) (root_level : Level) (calls : ℕ)
    → root_level < 256
    → root_level ≤ calls
    → (witness_addrs p root_level ≡ path_items root_level 0 p 0)
      × (collect calls (iter_at 0 p 0 root_level) ≡ path_items root_level 0 p 0)
witness_addrs_eq p root_level calls h le =
    (witness_addrs_items p root_level h, path_eq p root_level calls h le)

pub items_odd :
    (n l q c : ℕ)
    → q % 2 ≡ 1
    → path_items (suc n) l q c
      ≡ (record { level = l; index = bit_xor q 1 }, past c) ∷ path_items n (suc l) (q / 2) (suc c)
unfolding path_items
items_odd n l q c odd = let next_count : c + 1 ≡ suc c = omega arith in rw (odd, next_count) refl

pub items_even :
    (n l q c : ℕ)
    → q % 2 ≡ 0
    → path_items (suc n) l q c
      ≡ (record { level = l; index = bit_xor q 1 }, future) ∷ path_items n (suc l) (q / 2) c
unfolding path_items
items_even n l q c even = let same_count : c + 0 ≡ c = omega arith in rw (even, same_count) refl

pub items_zero : (l q c : ℕ) → path_items zero l q c ≡ []
unfolding path_items
items_zero l q c = refl
