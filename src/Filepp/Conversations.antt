-- ===== src/Filepp/Conversations.antt =====
-- What include/data_source/filepp/algorithms.hpp makes of a file.
use feedback_ingest.Base.{◌≡◌, arith, none, some, List, Bytes, codes, map, All, AllPairs}
use feedback_ingest.Base.{ok, >>=-ok, traverse-All, traverse-AllPairs}
use feedback_ingest.Base.Int.{ℤ}
use feedback_ingest.Json.{JsonLibrary, IsLawful, parse_json}
use feedback_ingest.Json.Members.{HasMember, parse_json-some, contains_found, contains_missing}
use mathlib.Core.List.{map-id}
use feedback_ingest.Schema.Stamp.{IsStamped}
use feedback_ingest.Schema.{
  User, user_1, user_2, ConversationEntry, Conversation, conversation, Schema,
}
use feedback_ingest.Filepp.Algorithms.{get_conversation_entry, entry_to_schema, to_schema}

module _ (J : JsonLibrary) where
  open J use {Json, Real}

  -- A message of the user stands under "User"; one of the support stands under "Support", beside no
  -- "User".
  abbrev pub SaidBy : User → Json → Bytes → Type 0
  SaidBy user_1 j message = HasMember J J.get_string j (codes "User") message
  SaidBy user_2 j message =
      (J.find j (codes "User") ≡ none) × HasMember J J.get_string j (codes "Support") message

  abbrev pub ShowsEntry : Json → ConversationEntry → Type 0
  ShowsEntry j c = SaidBy c.user j c.message

  -- What an element of the README's sample file tells.
  pub record DocumentData : Type 0 where
    pub app_version : Bytes
    pub talk : Conversation

  pub record ShowsDocument (j : Json) (d : DocumentData) : Type 0 where
    pub app_version : HasMember J J.get_string j (codes "app_version") d.app_version
    pub entries : Json
    pub has_entries : J.find j (codes "conversation") ≡ some entries
    pub talk : AllPairs ShowsEntry (J.elements entries) d.talk

  abbrev pub schema_of : ℤ → ℤ → DocumentData → Schema Real
  schema_of source_id tenant_id d = record {
    source_id = source_id;
    tenant_id = tenant_id;
    entry = record {
      metadata = record {
        location = none;
        app_version = some d.app_version;
        rating = none;
        impressions = none;
      };
      feedback = conversation d.talk;
    };
  }

module _ (J : JsonLibrary) (L : IsLawful J) where
  open J use {Json, Real}

  SaidBy-entry :
      (j : Json) (u : User) (message : Bytes)
      → SaidBy J u j message
      → get_conversation_entry J j ≡ ok (record { user = u; message = message })
  unfolding get_conversation_entry
  SaidBy-entry j user_1 message (v, found, read) =
      rw (contains_found J j v (codes "User") found, L.at_found j v _ found, read)
  SaidBy-entry j user_2 message (missing, (v, found, read)) =
      rw (contains_missing J j (codes "User") missing, L.at_found j v _ found, read)

  ShowsEntry-entry :
      (j : Json) (c : ConversationEntry) → ShowsEntry J j c → get_conversation_entry J j ≡ ok c
  ShowsEntry-entry j c h = SaidBy-entry j c.user c.message h

  ShowsDocument-schema :
      (source_id tenant_id : ℤ) (j : Json) (d : DocumentData J)
      → ShowsDocument J j d
      → entry_to_schema J source_id tenant_id j ≡ ok (schema_of J source_id tenant_id d)
  unfolding entry_to_schema
  ShowsDocument-schema source_id tenant_id j d h = rw (
    L.at_found j _ _ h.app_version.1,
    h.app_version.2,
    L.at_found j _ _ h.has_entries,
    traverse-AllPairs (ShowsEntry J) (get_conversation_entry J) (λ c. c) ShowsEntry-entry
        (J.elements h.entries) d.talk h.talk,
    map-id,
  )

  -- A file of documents is read as one schema for each of them, in their order, and each schema has
  -- the messages of its document in their order, with who said them.
  pub to_schema-ShowsDocument :
      (source_id tenant_id : ℤ) (content : Bytes) (j : Json) (ds : List (DocumentData J))
      → J.parse content ≡ some j
      → AllPairs (ShowsDocument J) (J.elements j) ds
      → to_schema J source_id tenant_id content ≡ ok (map (schema_of J source_id tenant_id) ds)
  unfolding to_schema
  to_schema-ShowsDocument source_id tenant_id content j ds parsed shows = rw (
    parse_json-some J content j parsed,
    traverse-AllPairs (ShowsDocument J) (entry_to_schema J source_id tenant_id)
        (schema_of J source_id tenant_id) (ShowsDocument-schema source_id tenant_id) (J.elements j)
        ds shows,
  )

module _ (J : JsonLibrary) (source_id tenant_id : ℤ) where
  entry_to_schema-IsStamped :
      (j : J.Json) (s : Schema J.Real)
      → entry_to_schema J source_id tenant_id j ≡ ok s
      → IsStamped source_id tenant_id s
  unfolding entry_to_schema
  entry_to_schema-IsStamped j s e = ground arith

  -- Whatever a file holds, every schema that it is read as carries the ids of the source and the
  -- tenant.
  pub to_schema-IsStamped :
      (content : Bytes) (ss : List (Schema J.Real))
      → to_schema J source_id tenant_id content ≡ ok ss
      → All (IsStamped source_id tenant_id) ss
  unfolding to_schema
  to_schema-IsStamped content ss e =
      let (json, e₁, f₁) = >>=-ok (parse_json J content) _ e in
      (traverse-All (IsStamped source_id tenant_id) (entry_to_schema J source_id tenant_id)
        entry_to_schema-IsStamped (J.elements json) ss f₁).0
