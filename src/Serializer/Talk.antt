-- ===== src/Serializer/Talk.antt =====
-- The pushes of `serialize_conversation` of include/schema_serializers/json_serializer.hpp.
use feedback_ingest.Base.{
  ◌≡◌, refl, ◌∙◌, ap, sym, ◌⊎◌, inl, inr, true, none, some, List, [], ◌∷◌, ◌++◌, codes, ok,
}
use feedback_ingest.Base.{bytes_eq}
use mathlib.Core.List.{append-nil, append_assoc}
use feedback_ingest.Json.{JsonLibrary, IsLawful}
use feedback_ingest.Schema.{Conversation}
use feedback_ingest.Serializer.{push_data, push_entries}
use feedback_ingest.Serializer.Reader.{read_all, read_conversation_entry, entries_of}
use feedback_ingest.Serializer.Members.{serialize_conversation_entry_lem}

module _ (J : JsonLibrary) (L : IsLawful J) where
  open J use {Json, Real}

  -- An object that is to say "conversation", with `written` pushed to its member "data".
  pub record Pushed (type : Json) (j : Json) (written : List Json) : Type 0 where
    pub object : J.is_object j ≡ true
    pub tagged : J.find j (codes "feedback_type") ≡ some type
    pub items : entries_of J (J.find j (codes "data")) ≡ written
    pub can_push :
        (J.find j (codes "data") ≡ none)
        ⊎ ((d : Json) × (J.find j (codes "data") ≡ some d) × (J.is_array d ≡ true))

  -- What the pushed-to member holds before the push.
  before_push :
      (type j : Json) (written : List Json)
      → Pushed type j written
      → (d : Json) × (J.index j (codes "data") ≡ ok d)
        × ((d ≡ J.null) ⊎ (J.is_array d ≡ true))
        × (J.elements d ≡ written)
  before_push type j written p = elim p.can_push [
    | inl e ↦ (
      J.null,
      L.index_missing j (codes "data") p.object e,
      inl refl,
      L.elements-null ∙ ap (entries_of J) (sym e) ∙ p.items,
    )
    | inr (d, e, array) ↦
        (d, L.index_found j d (codes "data") e, inr array, ap (entries_of J) (sym e) ∙ p.items)
  ]

  push_entry_lem :
      (type j v : Json) (written : List Json)
      → Pushed type j written
      → (j' : Json) × (push_data J v j ≡ ok j') × Pushed type j' (written ++ (v ∷ []))
  unfolding push_data bytes_eq
  push_entry_lem type j v written p =
      let (d, e, can, held) = before_push type j written p in
      let (a, e', array, more) = L.push_back_total d v can in
      let (j', e'', object, found) = L.set_total j (codes "data") a (inr p.object) in
      (
        j',
        rw (e, e') e'',
        record {
          object = object;
          tagged = found (codes "feedback_type") ∙ p.tagged;
          items =
              ap (entries_of J) (found (codes "data"))
              ∙ more
              ∙ ap (λ (l : List Json). l ++ (v ∷ [])) held;
          can_push = inr (a, found (codes "data"), array);
        },
      )

  pub push_entries_lem :
      (es : Conversation) (type j : Json) (written : List Json)
      → Pushed type j written
      → (j' : Json) × (vs : List Json) × (push_entries J es j ≡ ok j')
        × Pushed type j' (written ++ vs)
        × (read_all (read_conversation_entry J) vs ≡ some es)
  unfolding push_entries
  push_entries_lem [] type j written p = (j, [], refl, rw append-nil p, refl)
  push_entries_lem (c ∷ es) type j written p =
      let (v, e, said) = serialize_conversation_entry_lem J L c in
      let (j₁, e₁, p₁) = push_entry_lem type j v written p in
      let (j', vs, e', p', said') = push_entries_lem es type j₁ (written ++ (v ∷ [])) p₁ in
      (j', v ∷ vs, rw (e, e₁) e', rw append_assoc at p', rw (said, said'))

  pub Pushed-start :
      (type : Json)
      → (j : Json) × (J.set J.null (codes "feedback_type") type ≡ ok j) × Pushed type j []
  unfolding bytes_eq
  Pushed-start type =
      let (j, e, object, found) = L.set_total J.null (codes "feedback_type") type (inl refl) in
      let empty : J.find j (codes "data") ≡ none =
        found (codes "data") ∙ L.find-null (codes "data") in
      (
        j,
        e,
        record {
          object = object;
          tagged = found (codes "feedback_type");
          items = ap (entries_of J) empty;
          can_push = inl empty;
        },
      )
