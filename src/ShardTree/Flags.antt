-- ===== src/ShardTree/Flags.antt =====
-- `RetentionFlags` of shardtree/src/prunable.rs: a set of three flags in the bits of a `u8`. The
-- operations `|`, `&` and `-` are those that the `bitflags` macro derives, on three bits.
use incrementalmerkletree.Prelude.{ℕ, Bool, ◌==◌, bit_and, bit_or, bit_xor, ◌≡◌, refl}
use incrementalmerkletree.Retention.{Retention, Marking}
use incrementalmerkletree.Retention as Retain

abbrev pub RetentionFlags : Type 0
RetentionFlags = ℕ

abbrev pub ephemeral : RetentionFlags
ephemeral = 0b000

abbrev pub checkpoint : RetentionFlags
checkpoint = 0b001

abbrev pub marked : RetentionFlags
marked = 0b010

abbrev pub reference : RetentionFlags
reference = 0b100

-- `a - b` is `a & !b`.
unfoldable pub difference : RetentionFlags → RetentionFlags → RetentionFlags
difference a b = bit_and a (bit_xor b 0b111)

unfoldable pub is_checkpoint : RetentionFlags → Bool
is_checkpoint r = bit_and r checkpoint == checkpoint

unfoldable pub is_marked : RetentionFlags → Bool
is_marked r = bit_and r marked == marked

unfoldable pub from_retention {ℓ} : {C : Type ℓ} → Retention C → RetentionFlags
from_retention Retention.ephemeral = ephemeral
from_retention (Retention.checkpoint id Marking.marked) = bit_or checkpoint marked
from_retention (Retention.checkpoint id Marking.reference) = bit_or checkpoint reference
from_retention (Retention.checkpoint id Marking.none) = checkpoint
from_retention Retention.marked = marked
from_retention Retention.reference = reference

-- The flags made from a retention say as it does whether a leaf is a checkpoint and whether it
-- is marked.
pub from_retention-is_marked {ℓ} :
    {C : Type ℓ} (r : Retention C)
    → (is_marked (from_retention r) ≡ Retain.is_marked r)
      × (is_checkpoint (from_retention r) ≡ Retain.is_checkpoint r)
unfolding is_marked is_checkpoint from_retention Retain.is_marked Retain.is_checkpoint
from_retention-is_marked Retention.ephemeral = (refl, refl)
from_retention-is_marked (Retention.checkpoint id Marking.marked) = (refl, refl)
from_retention-is_marked (Retention.checkpoint id Marking.reference) = (refl, refl)
from_retention-is_marked (Retention.checkpoint id Marking.none) = (refl, refl)
from_retention-is_marked Retention.marked = (refl, refl)
from_retention-is_marked Retention.reference = (refl, refl)
