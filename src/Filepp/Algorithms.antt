-- ===== src/Filepp/Algorithms.antt =====
-- include/data_source/filepp/algorithms.hpp
use feedback_ingest.Base.{none, some, List, Bytes, codes, if◌then◌else◌}
use feedback_ingest.Base.{Outcome, ok, ◌>>=◌, traverse}
use feedback_ingest.Base.Int.{ℤ}
use feedback_ingest.Json.{JsonLibrary, parse_json, contains}
use feedback_ingest.Schema.{user_1, user_2, ConversationEntry, Conversation, conversation, Schema}

module _ (J : JsonLibrary) where
  open J use {Json, Real}

  unfoldable pub get_conversation_entry : Json → Outcome ConversationEntry
  unfolding contains
  get_conversation_entry json =
      if contains J json (codes "User")
      then (do
        said ← J.at json (codes "User")
        message ← J.get_string said
        ok (record { user = user_1; message = message }))
      else (do
        said ← J.at json (codes "Support")
        message ← J.get_string said
        ok (record { user = user_2; message = message }))

  unfoldable pub get_conversation : Json → Outcome Conversation
  unfolding get_conversation_entry
  get_conversation json = traverse get_conversation_entry (J.elements json)

  unfoldable pub entry_to_schema : ℤ → ℤ → Json → Outcome (Schema Real)
  unfolding get_conversation
  entry_to_schema source_id tenant_id json = do
    version ← J.at json (codes "app_version")
    app_version ← J.get_string version
    entries ← J.at json (codes "conversation")
    talk ← get_conversation entries
    ok (record {
      source_id = source_id;
      tenant_id = tenant_id;
      entry = record {
        metadata = record {
          location = none;
          app_version = some app_version;
          rating = none;
          impressions = none;
        };
        feedback = conversation talk;
      };
    })

  unfoldable pub to_schema : ℤ → ℤ → Bytes → Outcome (List (Schema Real))
  unfolding parse_json entry_to_schema
  to_schema source_id tenant_id content = do
    json ← parse_json J content
    traverse (entry_to_schema source_id tenant_id) (J.elements json)
