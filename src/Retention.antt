-- ===== src/Retention.antt =====
-- `Marking`, `Retention` and `Source` of incrementalmerkletree/src/lib.rs.
use incrementalmerkletree.Prelude.{ℕ, Bool, true, false}

pub data Marking : Type 0 where
  marked reference none : Marking

pub data Retention {ℓ} (C : Type ℓ) : Type ℓ where
  ephemeral : Retention C
  checkpoint : C → Marking → Retention C
  marked : Retention C
  reference : Retention C

module _ {ℓ} {C : Type ℓ} where
  unfoldable pub is_checkpoint : Retention C → Bool
  is_checkpoint (Retention.checkpoint id marking) = true
  is_checkpoint _ = false

  unfoldable pub is_marked : Retention C → Bool
  is_marked Retention.marked = true
  is_marked (Retention.checkpoint id Marking.marked) = true
  is_marked _ = false

unfoldable pub map_id {ℓ κ} : {C : Type ℓ} {D : Type κ} → (C → D) → Retention C → Retention D
map_id f Retention.ephemeral = Retention.ephemeral
map_id f (Retention.checkpoint id marking) = Retention.checkpoint (f id) marking
map_id f Retention.marked = Retention.marked
map_id f Retention.reference = Retention.reference

-- Where the sibling of a node on the path comes from: an ommer of the frontier, by its index, or
-- leaves that are still to come.
pub data Source : Type 0 where
  past : ℕ → Source
  future : Source
