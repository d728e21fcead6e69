-- ===== src/Discourse.antt =====
-- include/data_source/discourse: feedback fetched from a Discourse forum.
pub mod Load
pub mod Algorithms
pub mod Urls
pub mod Posts
pub mod Operation
pub mod Rounds
pub mod Polling
pub mod Spans
pub mod Stored
use feedback_ingest.Registry.{SourceId, TenantId}
use feedback_ingest.Base.Int.{ℤ}

-- `discourse_info_t`
pub record DiscourseInfo : Type 0 where
  pub topic_id : ℤ

-- The values of `discourse_operation_state_t`; its timer has no state, and the sink that it refers
-- to is reached by the interface of its operations.
pub record DiscourseOperationState : Type 0 where
  pub source_id : SourceId
  pub tenant_id : TenantId
  pub discourse_info : DiscourseInfo
