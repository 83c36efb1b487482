-- ===== src/Tests/Sample.antt =====
-- A hash on numbers, for the tests: it tells levels and sides apart.
use incrementalmerkletree.Prelude.{ℕ, ◌+◌, ◌*◌, ◌==◌, ==_iff}
use incrementalmerkletree.Hashable.{Hashable}
use incrementalmerkletree.ShardTree.Prunable.{Eq}

instance abbrev pub sample_hash : Hashable ℕ
sample_hash = record { empty_leaf = 0; combine = λ level a b. 1 + level + 3 * a + 5 * b }

instance abbrev pub sample_eq : Eq ℕ
sample_eq = record { beq = ◌==◌; beq_iff = ==_iff }

-- Leaf `i` is `10 + i`.
abbrev pub sample_leaves : ℕ → ℕ
sample_leaves i = 10 + i
