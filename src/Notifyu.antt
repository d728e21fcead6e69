-- ===== src/Notifyu.antt =====
-- include/data_source/notifyu: reviews that are pushed over HTTP.
pub mod Load
pub mod Algorithms
pub mod Reviews
pub mod Operation
pub mod Handler
pub mod Requests
pub mod Stored
use feedback_ingest.Registry.{SourceId, TenantId}
use feedback_ingest.Base.{Bytes}
use feedback_ingest.Base.Int.{ℤ}

-- `notifyu_info_t`
pub record NotifyuInfo : Type 0 where
  pub listening_route : Bytes

-- The values of `notifyu_operation_state_t`; the server and the sink that it refers to are reached
-- by the commands and the interface of its operations.
pub record NotifyuOperationState : Type 0 where
  pub source_id : SourceId
  pub tenant_id : TenantId
  pub notifyu_info : NotifyuInfo
