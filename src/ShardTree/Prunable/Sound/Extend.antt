-- ===== src/ShardTree/Prunable/Sound/Extend.antt =====
-- `replacement` of `insert_subtree`, which extends a tree upwards by empty siblings.
use incrementalmerkletree.Prelude.{
  ℕ, zero, suc, ◌+◌, ◌-◌, ◌/◌, ◌%◌, ◌^◌, ◌<◌, ◌≡◌, ◌↔◌, arith, Option, none, if◌then◌else◌, ap₂,
  sym, ◌∙◌, Bool, true, Bool-cases, inl, inr, List, [], ◌∷◌, ◌++◌, ltb, lt→ltb, ◌==◌, div_pow_zero,
  half_div_pow, subst, elim-true,
}
use incrementalmerkletree.Prelude.Bits.{bit_and-one}
use incrementalmerkletree.Level.{Level}
use incrementalmerkletree.Address.{
  Address, contains, parent as parent_addr, is_right_child, sibling,
}
use incrementalmerkletree.Address.Shape.{Fits}
use incrementalmerkletree.Address.Containment.{contains_iff}
use incrementalmerkletree.Address.Family.{left_of, right_of}
use incrementalmerkletree.Hashable.{Hashable}
use incrementalmerkletree.ShardTree.Tree.{parent, nil}
use incrementalmerkletree.ShardTree.Prunable.{PrunableTree, Eq}
use incrementalmerkletree.ShardTree.Prunable.Located.{LocatedPrunableTree}
use incrementalmerkletree.ShardTree.Prunable.Located.Insert.{IncompleteAt, extend, replacement}
use incrementalmerkletree.ShardTree.Prunable.Sound.{IsSound, CachedIsSound, reannotate_root-IsSound}
use incrementalmerkletree.ShardTree.Prunable.Sound.Marked.{
  HasMarked, only_left, only_right, iff_trans, flip, reannotate_root-HasMarked,
}

abbrev up : Address → Address
up a = record { level = a.level + 1; index = a.index / 2 }

parent_up : (a : Address) → a.level < 64 → parent_addr a ≡ up a
unfolding parent_addr
parent_up a h = ground arith

right_iff : (a : Address) → is_right_child a ≡ (a.index % 2 == 1)
unfolding is_right_child
right_iff a = ground (arith, bit_and-one a.index)

module _ {ℓ} {H : Type ℓ} where
  -- A parent made of a tree and an empty sibling.
  abbrev raised : Address → PrunableTree H → PrunableTree H
  raised a t = if is_right_child a then parent none nil t else parent none t nil

  at_same : (q : ℕ) (a b : Address) (t : PrunableTree H) → b ≡ a → HasMarked q a t ↔ HasMarked q b t
  at_same q a b t same =
      (subst (λ c. HasMarked q c t) (sym same), subst (λ c. HasMarked q c t) same)

  raised-HasMarked :
      (q : ℕ) (a : Address) (t : PrunableTree H)
      → a.level < 64
      → HasMarked q (parent_addr a) (raised a t) ↔ HasMarked q a t
  raised-HasMarked q a t room =
      rw (parent_up a room, right_iff a)
        (elim (Bool-cases (a.index % 2 == 1)) [
          | inl odd ↦
              let same : right_of (up a) ≡ a = ground arith in
              rw odd (flip (only_right (λ m. m) (at_same q a (right_of (up a)) t same)))
          | inr even ↦
              let same : left_of (up a) ≡ a = ground arith in
              rw even (flip (only_left (λ m. m) (at_same q a (left_of (up a)) t same)))
        ])

module _ {ℓ} {H : Type ℓ} ⦃h : Hashable H⦄ (f : ℕ → H) where
  raised-IsSound :
      (a : Address) (t : PrunableTree H)
      → a.level < 64
      → IsSound f a t
      → IsSound f (parent_addr a) (raised a t)
  raised-IsSound a t room s =
      rw (parent_up a room, right_iff a)
        (elim (Bool-cases (a.index % 2 == 1)) [
          | inl odd ↦
              let same : right_of (up a) ≡ a = ground arith in
              rw odd (omega arith, tt, tt, subst (λ b. IsSound f b t) (sym same) s)
          | inr even ↦
              let same : left_of (up a) ≡ a = ground arith in
              rw even (omega arith, tt, subst (λ b. IsSound f b t) (sym same) s, tt)
        ])

module _ {ℓ} {H : Type ℓ} ⦃h : Hashable H⦄ ⦃e : Eq H⦄ (f : ℕ → H) (q : ℕ) where
  -- A tree at the address that stands for the leaves and has the marked leaves of the node.
  abbrev pub Carries : Address → LocatedPrunableTree H → PrunableTree H → Type ℓ
  Carries a node t = IsSound f a t × (HasMarked q a t ↔ HasMarked q node.root_addr node.root)

  -- One round of the loop.
  extend_step :
      (n : ℕ) (top : Level) (required : Bool) (node : LocatedPrunableTree H)
      (found : List IncompleteAt)
      → ltb node.root_addr.level top ≡ true
      → extend (suc n) top required node found
        ≡ extend n top required
            (record {
              root_addr = parent_addr node.root_addr;
              root = raised node.root_addr node.root;
            })
            (found
              ++ record { address = sibling node.root_addr; required_for_witness = required } ∷ [])
  unfolding extend
  extend_step n top required node found more = elim-true more _ _

  -- The loop ends at the level of the root, on the way up from the node.
  extend-Carries :
      (n : ℕ) (a : Address) (required : Bool) (node : LocatedPrunableTree H)
      (found : List IncompleteAt)
      → a.level < 64
      → node.root_addr.level + n ≡ a.level
      → node.root_addr.index / 2 ^ n ≡ a.index
      → IsSound f node.root_addr node.root
      → Carries a node (extend n a.level required node found).0
  extend-Carries zero a required node found room level index s =
      let same : node.root_addr ≡ a =
        ap₂ (λ level index. record { level = level; index = index }) (omega arith)
          (sym (div_pow_zero node.root_addr.index) ∙ index) in
      unfold extend in
      (subst (λ b. IsSound f b node.root) same s, at_same q a node.root_addr node.root same)
  extend-Carries (suc n) a required node found room level index s =
      let next = parent_up node.root_addr (omega arith) in
      let (sound, kept) =
        extend-Carries n a required
          (record {
            root_addr = parent_addr node.root_addr;
            root = raised node.root_addr node.root;
          })
          (found
            ++ record { address = sibling node.root_addr; required_for_witness = required } ∷ [])
          room (rw next (omega arith)) (rw next (half_div_pow node.root_addr.index n ∙ index))
          (raised-IsSound f node.root_addr node.root (omega arith) s) in
      rw
        (extend_step n a.level required node found
          (lt→ltb node.root_addr.level a.level (omega arith)))
        (sound, iff_trans kept (raised-HasMarked q node.root_addr node.root (omega arith)))

  -- A replacement stands at the node that it replaces.
  pub replacement-Carries :
      (a : Address) (required : Bool) (ann : Option H) (node : LocatedPrunableTree H)
      → Fits a
      → contains a node.root_addr ≡ true
      → CachedIsSound f a ann
      → IsSound f node.root_addr node.root
      → Carries a node (replacement a required ann node).0
  unfolding replacement
  replacement-Carries a required ann node fits inside cached s =
      let (le, index) = (contains_iff a node.root_addr fits.levels).0 inside in
      let (sound, kept) =
        extend-Carries (a.level - node.root_addr.level) a required node [] fits.levels (omega arith)
          index s in
      let extended = (extend (a.level - node.root_addr.level) a.level required node []).0 in
      (
        reannotate_root-IsSound f a extended ann cached sound,
        iff_trans (reannotate_root-HasMarked q a extended ann) kept,
      )
