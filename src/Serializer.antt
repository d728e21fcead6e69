-- ===== src/Serializer.antt =====
-- include/schema_serializers/json_serializer.hpp
pub mod Reader
pub mod Members
pub mod Talk
pub mod RoundTrip
use feedback_ingest.Base.{Option, none, some, List, [], ◌∷◌, Bytes, codes, Outcome, ok, ◌>>=◌}
use feedback_ingest.Json.{JsonLibrary}
use feedback_ingest.Schema.{
  User, user_1, user_2, ConversationEntry, Conversation, Feedback, conversation, review, Review,
  Metadata, DataSourceEntry, Schema,
}

-- `std::visit` of an `rd::overloaded` of two functions.
abbrev pub overloaded {ℓ} : {A : Type ℓ} → (Conversation → A) → (Review → A) → Feedback → A
overloaded on_conversation on_review (conversation entries) = on_conversation entries
overloaded on_conversation on_review (review text) = on_review text

module _ (J : JsonLibrary) where
  open J use {Json, Real}

  -- `if (o) j[key] = o.value();`
  unfoldable pub set_some {ℓ} : {A : Type ℓ} → (A → Json) → Bytes → Option A → Json → Outcome Json
  set_some render key none j = ok j
  set_some render key (some a) j = J.set j key (render a)

  unfoldable pub serialize_metadata : Metadata Real → Outcome Json
  unfolding set_some
  serialize_metadata metadata = do
    j₁ ← set_some J.of_string (codes "location") metadata.location J.null
    j₂ ← set_some J.of_string (codes "app_version") metadata.app_version j₁
    j₃ ← set_some J.of_real (codes "rating") metadata.rating j₂
    set_some J.of_int (codes "impressions") metadata.impressions j₃

  abbrev user_name : User → Bytes
  user_name user_1 = codes "user1"
  user_name user_2 = codes "user2"

  unfoldable pub serialize_conversation_entry : ConversationEntry → Outcome Json
  serialize_conversation_entry entry = do
    j ← J.set J.null (codes "message") (J.of_string entry.message)
    J.set j (codes "user") (J.of_string (user_name entry.user))

  -- `j["data"].push_back(rendered)`
  unfoldable pub push_data : Json → Json → Outcome Json
  push_data rendered j = do
    before ← J.index j (codes "data")
    after ← J.push_back before rendered
    J.set j (codes "data") after

  -- The loop of `serialize_converstion`.
  unfoldable pub push_entries : Conversation → Json → Outcome Json
  push_entries [] j = ok j
  push_entries (entry ∷ entries) j = do
    rendered ← serialize_conversation_entry entry
    j' ← push_data rendered j
    push_entries entries j'

  unfoldable pub serialize_conversation : Conversation → Outcome Json
  unfolding push_entries push_data serialize_conversation_entry
  serialize_conversation entries = do
    j ← J.set J.null (codes "feedback_type") (J.of_string (codes "conversation"))
    push_entries entries j

  unfoldable pub serialize_review : Review → Outcome Json
  serialize_review text = do
    j ← J.set J.null (codes "feedback_type") (J.of_string (codes "review"))
    J.set j (codes "data") (J.of_string text)

  unfoldable pub serialize_feedback : Feedback → Outcome Json
  unfolding serialize_conversation serialize_review
  serialize_feedback feedback = overloaded serialize_conversation serialize_review feedback

  unfoldable pub serialize_entry : DataSourceEntry Real → Outcome Json
  unfolding serialize_metadata serialize_feedback
  serialize_entry entry = do
    metadata ← serialize_metadata entry.metadata
    j ← J.set J.null (codes "metadata") metadata
    feedback ← serialize_feedback entry.feedback
    J.set j (codes "feedback") feedback

  -- `serialize_to_json` of one schema
  unfoldable pub serialize_schema : Schema Real → Outcome Json
  unfolding serialize_entry
  serialize_schema schema = do
    j₁ ← J.set J.null (codes "source_id") (J.of_int schema.source_id)
    j₂ ← J.set j₁ (codes "tenant_id") (J.of_int schema.tenant_id)
    entry ← serialize_entry schema.entry
    J.set j₂ (codes "entry") entry

  unfoldable pub push_schemas : List (Schema Real) → Json → Outcome Json
  push_schemas [] j = ok j
  push_schemas (schema ∷ schemas) j = do
    rendered ← serialize_schema schema
    j' ← J.push_back j rendered
    push_schemas schemas j'

  -- `serialize_to_json` of a vector
  unfoldable pub serialize_to_json : List (Schema Real) → Outcome Json
  unfolding push_schemas serialize_schema
  serialize_to_json schemas = push_schemas schemas J.null
