-- ===== src/Filepp/Accepted.antt =====
-- The files that include/data_source/filepp/algorithms.hpp reads as schemas.
use feedback_ingest.Base.{
  ◌≡◌, refl, sym, ap, ◌∙◌, inl, inr, some, List, Bytes, codes, map, AllPairs, Option-cases,
}
use feedback_ingest.Base.{Outcome, ok, ◌>>=◌, >>=-ok, ok-injective, traverse-related}
use feedback_ingest.Base.Int.{ℤ}
use mathlib.Core.List.{map-id}
use mathlib.Core.Path.{subst}
use feedback_ingest.Json.{JsonLibrary, IsLawful, parse_json}
use feedback_ingest.Json.Members.{HasMember, contains_found, contains_missing, at-ok, parse_json-ok}
use feedback_ingest.Schema.{User, user_1, user_2, ConversationEntry, Conversation, Schema}
use feedback_ingest.Filepp.Algorithms.{
  get_conversation_entry, get_conversation, entry_to_schema, to_schema,
}
use feedback_ingest.Filepp.Conversations.{
  SaidBy, ShowsEntry, DocumentData, ShowsDocument, schema_of,
}

module _ (J : JsonLibrary) (L : IsLawful J) where
  open J use {Json, Real}

  member-read :
      {A B : Type 0} (get : Json → Outcome A) (j : Json) (k : Bytes) (next : A → Outcome B) (b : B)
      → (J.at j k >>= λ v. get v >>= next) ≡ ok b
      → (a : A) × HasMember J get j k a × (next a ≡ ok b)
  member-read get j k next b e =
      let (v, found, e₁) = >>=-ok (J.at j k) _ e in
      let (a, read, e₂) = >>=-ok (get v) _ e₁ in (a, (v, at-ok J L j v k found, read), e₂)

  -- A message of `user` under the key `k`.
  abbrev entry_under : User → Bytes → Json → Outcome ConversationEntry
  entry_under user k j =
      J.at j k >>= λ v. J.get_string v >>= λ message. ok (record { user = user; message = message })

  entry_under-HasMember :
      (user : User) (k : Bytes) (j : Json) (c : ConversationEntry)
      → entry_under user k j ≡ ok c
      → HasMember J J.get_string j k c.message × (c.user ≡ user)
  entry_under-HasMember user k j c e =
      let (message, there, e₁) = member-read J.get_string j k _ c e in
      let same : record { user = user; message = message } ≡ c = ok-injective e₁ in
      (
        subst (λ (d : ConversationEntry). HasMember J J.get_string j k d.message) same there,
        sym (ap (λ (d : ConversationEntry). d.user) same),
      )

  get_conversation_entry-ShowsEntry :
      (j : Json) (c : ConversationEntry) → get_conversation_entry J j ≡ ok c → ShowsEntry J j c
  unfolding get_conversation_entry
  get_conversation_entry-ShowsEntry j c e = elim (Option-cases (J.find j (codes "User"))) [
    | inl missing ↦
        let support : get_conversation_entry J j ≡ entry_under user_2 (codes "Support") j =
          rw (contains_missing J j (codes "User") missing) refl in
        let (there, who) = entry_under-HasMember user_2 (codes "Support") j c (sym support ∙ e) in
        subst (λ u. SaidBy J u j c.message) (sym who) (missing, there)
    | inr (v, found) ↦
        let user : get_conversation_entry J j ≡ entry_under user_1 (codes "User") j =
          rw (contains_found J j v (codes "User") found) refl in
        let (there, who) = entry_under-HasMember user_1 (codes "User") j c (sym user ∙ e) in
        subst (λ u. SaidBy J u j c.message) (sym who) there
  ]

  get_conversation-ShowsEntry :
      (entries : Json) (talk : Conversation)
      → get_conversation J entries ≡ ok talk
      → AllPairs (ShowsEntry J) (J.elements entries) talk
  unfolding get_conversation
  get_conversation-ShowsEntry entries talk e =
      let (said, shows, same) =
        traverse-related (ShowsEntry J) (get_conversation_entry J) (λ c. c)
          (λ x y ey. (y, get_conversation_entry-ShowsEntry x y ey, refl)) (J.elements entries) talk
          e in
      subst (AllPairs (ShowsEntry J) (J.elements entries)) (sym (same ∙ map-id said)) shows

  entry_to_schema-ShowsDocument :
      (source_id tenant_id : ℤ) (j : Json) (s : Schema Real)
      → entry_to_schema J source_id tenant_id j ≡ ok s
      → (d : DocumentData J) × ShowsDocument J j d × (s ≡ schema_of J source_id tenant_id d)
  unfolding entry_to_schema
  entry_to_schema-ShowsDocument source_id tenant_id j s e =
      let (version, shown, e₁) = member-read J.get_string j (codes "app_version") _ s e in
      let (entries, found, e₂) = >>=-ok (J.at j (codes "conversation")) _ e₁ in
      let (talk, read, e₃) = >>=-ok (get_conversation J entries) _ e₂ in
      (
        record { app_version = version; talk = talk },
        record {
          app_version = shown;
          entries = entries;
          has_entries = at-ok J L j entries _ found;
          talk = get_conversation-ShowsEntry entries talk read;
        },
        sym (ok-injective e₃),
      )

  -- Only a file of documents is read: where a content is read as schemas, it parses, each of its
  -- elements has a version of the app and a conversation whose messages stand under "User", or under
  -- "Support" beside no "User", and the schemas are those of these documents in their order.
  pub to_schema_only_documents :
      (source_id tenant_id : ℤ) (content : Bytes) (schemas : List (Schema Real))
      → to_schema J source_id tenant_id content ≡ ok schemas
      → (j : Json) × (documents : List (DocumentData J)) × (J.parse content ≡ some j)
        × AllPairs (ShowsDocument J) (J.elements j) documents
        × (schemas ≡ map (schema_of J source_id tenant_id) documents)
  unfolding to_schema
  to_schema_only_documents source_id tenant_id content schemas e =
      let (j, parsed, e₁) = >>=-ok (parse_json J content) _ e in
      let (documents, shows, same) =
        traverse-related (ShowsDocument J) (entry_to_schema J source_id tenant_id)
          (schema_of J source_id tenant_id) (entry_to_schema-ShowsDocument source_id tenant_id)
          (J.elements j) schemas e₁ in
      (j, documents, parse_json-ok J content j parsed, shows, same)
