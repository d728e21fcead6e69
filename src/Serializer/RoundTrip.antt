-- ===== src/Serializer/RoundTrip.antt =====
-- Everything that the serializer writes can be read back.
use feedback_ingest.Base.{
  ◌≡◌, refl, ◌∙◌, ap, sym, ◌⊎◌, inl, inr, true, some, List, [], ◌∷◌, ◌++◌, codes, ok,
}
use feedback_ingest.Base.{bytes_eq}
use mathlib.Core.List.{append-nil, append_assoc}
use feedback_ingest.Json.{JsonLibrary, IsLawful}
use feedback_ingest.Schema.{Feedback, conversation, review, DataSourceEntry, Schema}
use feedback_ingest.Serializer.{
  serialize_feedback, serialize_entry, serialize_schema, push_schemas, serialize_to_json,
}
use feedback_ingest.Serializer.Reader.{read_all, read_feedback, read_entry, read_schema}
use feedback_ingest.Serializer.Members.{set_two, serialize_metadata_lem}
use feedback_ingest.Serializer.Talk.{push_entries_lem, Pushed-start}

module _ (J : JsonLibrary) (L : IsLawful J) where
  open J use {Json, Real}

  serialize_feedback_lem :
      (f : Feedback) → (j : Json) × (serialize_feedback J f ≡ ok j) × (read_feedback J j ≡ some f)
  unfolding serialize_feedback bytes_eq
  serialize_feedback_lem (conversation es) =
      let type = J.of_string (codes "conversation") in
      let (j₀, e₀, p₀) = Pushed-start J L type in
      let (j, vs, e, p, said) = push_entries_lem J L es type j₀ [] p₀ in
      (j, rw e₀ e, rw (p.tagged, L.get_string-of_string, p.items, said))
  serialize_feedback_lem (review text) =
      let (j, e, o, type, said) =
        set_two J L (codes "feedback_type") (codes "data") (J.of_string (codes "review"))
          (J.of_string text) refl in
      (j, e, rw (type, L.get_string-of_string, said, L.get_string-of_string))

  serialize_entry_lem :
      (d : DataSourceEntry Real)
      → (j : Json) × (serialize_entry J d ≡ ok j) × (read_entry J j ≡ some d)
  unfolding serialize_entry bytes_eq
  serialize_entry_lem d =
      let (m, em, rm) = serialize_metadata_lem J L d.metadata in
      let (f, ef, rf) = serialize_feedback_lem d.feedback in
      let (j, e, o, fm, ff) = set_two J L (codes "metadata") (codes "feedback") m f refl in
      (j, rw (em, ef) e, rw (fm, ff, rf, rm))

  -- Every schema is written, and what is written says exactly that schema.
  pub serialize_schema_lem :
      (s : Schema Real) → (j : Json) × (serialize_schema J s ≡ ok j) × (read_schema J j ≡ some s)
  unfolding serialize_schema bytes_eq
  serialize_schema_lem s =
      let (d, ed, rd) = serialize_entry_lem s.entry in
      let (j₁, e₁, o₁, f₁) =
        L.set_total J.null (codes "source_id") (J.of_int s.source_id) (inl refl) in
      let (j₂, e₂, o₂, f₂) = L.set_total j₁ (codes "tenant_id") (J.of_int s.tenant_id) (inr o₁) in
      let (j₃, e₃, o₃, f₃) = L.set_total j₂ (codes "entry") d (inr o₂) in
      let source : J.find j₃ (codes "source_id") ≡ some (J.of_int s.source_id) =
        f₃ (codes "source_id") ∙ f₂ (codes "source_id") ∙ f₁ (codes "source_id") in
      let tenant : J.find j₃ (codes "tenant_id") ≡ some (J.of_int s.tenant_id) =
        f₃ (codes "tenant_id") ∙ f₂ (codes "tenant_id") in
      let entry : J.find j₃ (codes "entry") ≡ some d = f₃ (codes "entry") in
      (j₃, rw (e₁, e₂, ed) e₃, rw (source, L.get_int-of_int, tenant, L.get_int-of_int, entry, rd))

  push_schemas_lem :
      (ss : List (Schema Real)) (j : Json)
      → (j ≡ J.null) ⊎ (J.is_array j ≡ true)
      → (j' : Json) × (vs : List Json) × (push_schemas J ss j ≡ ok j')
        × (J.elements j' ≡ J.elements j ++ vs)
        × (read_all (read_schema J) vs ≡ some ss)
  unfolding push_schemas
  push_schemas_lem [] j h = (j, [], refl, sym (append-nil _), refl)
  push_schemas_lem (s ∷ ss) j h =
      let (v, e, said) = serialize_schema_lem s in
      let (j₁, e₁, array, more) = L.push_back_total j v h in
      let (j', vs, e', more', said') = push_schemas_lem ss j₁ (inr array) in
      (
        j',
        v ∷ vs,
        rw (e, e₁) e',
        more' ∙ ap (λ (l : List Json). l ++ vs) more ∙ append_assoc _ (v ∷ []) vs,
        rw (said, said'),
      )

  -- Any list of schemas is written, and the elements of what is written say exactly those schemas,
  -- in their order: read back, they are the list.
  pub serialize_to_json_lem :
      (ss : List (Schema Real))
      → (j : Json) × (serialize_to_json J ss ≡ ok j)
        × (read_all (read_schema J) (J.elements j) ≡ some ss)
  unfolding serialize_to_json
  serialize_to_json_lem ss =
      let (j, vs, e, more, said) = push_schemas_lem ss J.null (inl refl) in
      (
        j,
        e,
        ap (read_all (read_schema J)) (more ∙ ap (λ (l : List Json). l ++ vs) L.elements-null)
            ∙ said,
      )
