-- ===== src/Serializer/Reader.antt =====
-- A reader of the JSON that the serializer writes: what each member is to say, written without
-- regard to how the code writes it.
use feedback_ingest.Base.{Option, none, some, List, [], ◌∷◌, Bytes, codes}
use feedback_ingest.Base.{Outcome, ok, throws, undefined, ◌==◌, bytes_eq, if◌then◌else◌}
use feedback_ingest.Json.{JsonLibrary}
use feedback_ingest.Schema.{
  User, user_1, user_2, ConversationEntry, Feedback, conversation, review, Metadata,
  DataSourceEntry, Schema,
}

abbrev pub of_ok {ℓ} : {A : Type ℓ} → Outcome A → Option A
of_ok (ok a) = some a
of_ok (throws e) = none
of_ok undefined = none

infixl 5 ◌>>?◌
abbrev pub ◌>>?◌ {ℓ κ} : {A : Type ℓ} {B : Type κ} → Option A → (A → Option B) → Option B
none >>? f = none
some a >>? f = f a

abbrev pub read_all {ℓ κ} : {A : Type ℓ} {B : Type κ} → (A → Option B) → List A → Option (List B)
read_all f [] = some []
read_all f (x ∷ xs) = f x >>? λ y. read_all f xs >>? λ ys. some (y ∷ ys)

module _ (J : JsonLibrary) where
  open J use {Json, Real}

  -- The member under a key, if it is there and has the type.
  abbrev pub member_as {ℓ} : {A : Type ℓ} → (Json → Outcome A) → Json → Bytes → Option A
  member_as get j k = J.find j k >>? λ v. of_ok (get v)

  abbrev pub read_metadata : Json → Metadata Real
  read_metadata j = record {
    location = member_as J.get_string j (codes "location");
    app_version = member_as J.get_string j (codes "app_version");
    rating = member_as J.get_real j (codes "rating");
    impressions = member_as J.get_int j (codes "impressions");
  }

  abbrev pub read_user : Bytes → User
  read_user name = if name == codes "user1" then user_1 else user_2

  abbrev pub read_conversation_entry : Json → Option ConversationEntry
  read_conversation_entry j = member_as J.get_string j (codes "user") >>? λ name.
      member_as J.get_string j (codes "message") >>? λ message.
      some (record { user = read_user name; message = message })

  -- A conversation with no entry has no member "data".
  abbrev pub entries_of : Option Json → List Json
  entries_of none = []
  entries_of (some j) = J.elements j

  abbrev pub read_feedback : Json → Option Feedback
  read_feedback j = member_as J.get_string j (codes "feedback_type") >>? λ type.
      if type == codes "conversation"
      then (read_all read_conversation_entry (entries_of (J.find j (codes "data"))) >>? λ entries.
          some (conversation entries))
      else (member_as J.get_string j (codes "data") >>? λ text. some (review text))

  abbrev pub read_entry : Json → Option (DataSourceEntry Real)
  read_entry j = J.find j (codes "metadata") >>? λ metadata.
      J.find j (codes "feedback") >>? λ feedback. read_feedback feedback >>? λ said.
      some (record { metadata = read_metadata metadata; feedback = said })

  abbrev pub read_schema : Json → Option (Schema Real)
  read_schema j = member_as J.get_int j (codes "source_id") >>? λ source.
      member_as J.get_int j (codes "tenant_id") >>? λ tenant. J.find j (codes "entry") >>? λ entry.
      read_entry entry >>? λ said.
      some (record { source_id = source; tenant_id = tenant; entry = said })
