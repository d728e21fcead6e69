-- ===== src/Filepp.antt =====
-- include/data_source/filepp: conversations read from a file.
pub mod Load
pub mod Algorithms
pub mod Conversations
pub mod Accepted
pub mod Operation
pub mod Rounds
pub mod Polling
pub mod Stored
use feedback_ingest.Registry.{SourceId, TenantId}
use feedback_ingest.Base.{Bytes}
use feedback_ingest.Base.Int.{ℤ}

-- `filepp_info_t`
pub record FileppInfo : Type 0 where
  pub file_path : Bytes

-- The values of `filepp_operation_state_t`; its timer has no state, and the sink that it refers to
-- is reached by the interface of its operations.
pub record FileppOperationState : Type 0 where
  pub source_id : SourceId
  pub tenant_id : TenantId
  pub filepp_info : FileppInfo
