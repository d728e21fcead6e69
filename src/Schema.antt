-- ===== src/Schema.antt =====
-- include/schema.hpp: feedback in the form that all sources share.
pub mod Stamp
use feedback_ingest.Base.{ℕ, Option, List, Bytes}
use feedback_ingest.Base.Int.{ℤ}

-- `user_t`, a variant of two empty structs
pub data User : Type 0 where
  user_1 user_2 : User

pub record ConversationEntry : Type 0 where
  pub user : User
  pub message : Bytes

abbrev pub Conversation : Type 0
Conversation = List ConversationEntry

abbrev pub Review : Type 0
Review = Bytes

-- `feedback_t`
pub data Feedback : Type 0 where
  conversation : Conversation → Feedback
  review : Review → Feedback

-- `Real` stands for `double`.
pub record Metadata (Real : Type 0) : Type 0 where
  pub location : Option Bytes
  pub app_version : Option Bytes
  pub rating : Option Real
  pub impressions : Option ℤ

pub record DataSourceEntry (Real : Type 0) : Type 0 where
  pub metadata : Metadata Real
  pub feedback : Feedback

pub record Schema (Real : Type 0) : Type 0 where
  pub source_id : ℤ
  pub tenant_id : ℤ
  pub entry : DataSourceEntry Real
