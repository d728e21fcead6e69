-- ===== src/Schema/Stamp.antt =====
-- The ids that every source writes into its schemas.
use feedback_ingest.Base.{◌≡◌}
use feedback_ingest.Base.Int.{ℤ}
use feedback_ingest.Schema.{Schema}

abbrev pub IsStamped : {Real : Type 0} → ℤ → ℤ → Schema Real → Type 0
IsStamped source_id tenant_id s = (s.source_id ≡ source_id) × (s.tenant_id ≡ tenant_id)
