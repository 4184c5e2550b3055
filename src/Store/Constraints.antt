-- ===== src/Store/Constraints.antt =====
-- dtnd7-go/pkg/store/constraints.go: a retention constraint is a uint8.
use ma_sinafadavi_iran.Prelude.{ℕ, Bool, leb}

abbrev pub dispatch_pending : ℕ
dispatch_pending = 0

abbrev pub forward_pending : ℕ
forward_pending = 1

abbrev pub reassembly_pending : ℕ
reassembly_pending = 2

-- Constraint.Valid
unfoldable pub valid : ℕ → Bool
valid c = leb c reassembly_pending
