-- ===== src/Serializer/Members.antt =====
-- What the assignments of include/schema_serializers/json_serializer.hpp leave in an object.
use feedback_ingest.Base.{
  ◌≡◌, refl, ◌∙◌, ap, ◌⊎◌, inl, inr, true, false, arith, Option, none, some, Bytes, codes, Outcome,
  ok, ◌>>=◌,
}
use feedback_ingest.Base.{◌==◌, bytes_eq, if◌then◌else◌}
use feedback_ingest.Json.{JsonLibrary, IsLawful}
use feedback_ingest.Schema.{User, user_1, user_2, ConversationEntry, Metadata}
use feedback_ingest.Serializer.{
  set_some, serialize_metadata, user_name, serialize_conversation_entry,
}
use feedback_ingest.Serializer.Reader.{
  of_ok, ◌>>?◌, member_as, read_metadata, read_user, read_conversation_entry,
}

module _ (J : JsonLibrary) (L : IsLawful J) where
  open J use {Json, Real}

  -- What an assignment can be made to.
  abbrev CanSet : Json → Type 0
  CanSet j = (j ≡ J.null) ⊎ (J.is_object j ≡ true)

  abbrev stored {ℓ} : {A : Type ℓ} → (A → Json) → Option A → Option Json → Option Json
  stored render none before = before
  stored render (some a) before = some (render a)

  set_some_lem {ℓ} :
      {A : Type ℓ} (render : A → Json) (k : Bytes) (o : Option A) (j : Json)
      → CanSet j
      → (j' : Json) × (set_some J render k o j ≡ ok j')
        × CanSet j'
        × ((i : Bytes)
            → J.find j' i ≡ (if i == k then stored render o (J.find j i) else J.find j i))
  unfolding set_some
  set_some_lem render k none j h = (j, refl, h, λ i. ground arith)
  set_some_lem render k (some a) j h =
      let (j', e, object, found) = L.set_total j k (render a) h in (j', e, inr object, found)

  get_stored {ℓ} :
      {A : Type ℓ} (render : A → Json) (get : Json → Outcome A)
      → ((a : A) → get (render a) ≡ ok a)
      → (o : Option A) → (stored render o none >>? λ v. of_ok (get v)) ≡ o
  get_stored render get h none = refl
  get_stored render get h (some a) = rw h

  -- The member that one of the assignments to `null` wrote, or did not.
  read_stored {ℓ} :
      {A : Type ℓ} (render : A → Json) (get : Json → Outcome A)
      → ((a : A) → get (render a) ≡ ok a)
      → (k : Bytes) (o : Option A) (j : Json) → J.find j k ≡ stored render o (J.find J.null k)
      → member_as J get j k ≡ o
  read_stored render get h k o j e =
      ap (λ (x : Option Json). x >>? λ v. of_ok (get v)) (e ∙ ap (stored render o) (L.find-null k))
      ∙ get_stored render get h o

  pub serialize_metadata_lem :
      (m : Metadata Real) → (j : Json) × (serialize_metadata J m ≡ ok j) × (read_metadata J j ≡ m)
  unfolding serialize_metadata bytes_eq
  serialize_metadata_lem m =
      let (j₁, e₁, c₁, f₁) =
        set_some_lem J.of_string (codes "location") m.location J.null (inl refl) in
      let (j₂, e₂, c₂, f₂) = set_some_lem J.of_string (codes "app_version") m.app_version j₁ c₁ in
      let (j₃, e₃, c₃, f₃) = set_some_lem J.of_real (codes "rating") m.rating j₂ c₂ in
      let (j₄, e₄, c₄, f₄) = set_some_lem J.of_int (codes "impressions") m.impressions j₃ c₃ in
      let l : member_as J J.get_string j₄ (codes "location") ≡ m.location =
        read_stored J.of_string J.get_string L.get_string-of_string (codes "location") m.location j₄
          (f₄ (codes "location")
            ∙ f₃ (codes "location")
            ∙ f₂ (codes "location")
            ∙ f₁ (codes "location")) in
      let a : member_as J J.get_string j₄ (codes "app_version") ≡ m.app_version =
        read_stored J.of_string J.get_string L.get_string-of_string (codes "app_version")
          m.app_version j₄
          (f₄ (codes "app_version")
            ∙ f₃ (codes "app_version")
            ∙ f₂ (codes "app_version")
            ∙ ap (stored J.of_string m.app_version) (f₁ (codes "app_version"))) in
      let r : member_as J J.get_real j₄ (codes "rating") ≡ m.rating =
        read_stored J.of_real J.get_real L.get_real-of_real (codes "rating") m.rating j₄ (
          f₄ (codes "rating")
          ∙ f₃ (codes "rating")
          ∙ ap (stored J.of_real m.rating) (f₂ (codes "rating") ∙ f₁ (codes "rating"))) in
      let n : member_as J J.get_int j₄ (codes "impressions") ≡ m.impressions =
        read_stored J.of_int J.get_int L.get_int-of_int (codes "impressions") m.impressions j₄ (
          f₄ (codes "impressions")
          ∙ ap (stored J.of_int m.impressions)
              (f₃ (codes "impressions") ∙ f₂ (codes "impressions") ∙ f₁ (codes "impressions"))) in
      (
        j₄,
        rw (e₁, e₂, e₃) e₄,
        λ i. record { location = l i; app_version = a i; rating = r i; impressions = n i },
      )

  -- Two assignments to `null`, under different keys.
  pub set_two :
      (k₁ k₂ : Bytes) (v₁ v₂ : Json)
      → (k₁ == k₂) ≡ false
      → (j : Json) × ((J.set J.null k₁ v₁ >>= λ j₁. J.set j₁ k₂ v₂) ≡ ok j)
        × (J.is_object j ≡ true)
        × (J.find j k₁ ≡ some v₁)
        × (J.find j k₂ ≡ some v₂)
  set_two k₁ k₂ v₁ v₂ ne =
      let (j₁, e₁, o₁, f₁) = L.set_total J.null k₁ v₁ (inl refl) in
      let (j₂, e₂, o₂, f₂) = L.set_total j₁ k₂ v₂ (inr o₁) in
      (j₂, rw e₁ e₂, o₂, ground (arith, f₂ k₁, f₁ k₁), ground (arith, f₂ k₂))

  read_user-user_name : (u : User) → read_user J (user_name J u) ≡ u
  unfolding bytes_eq
  read_user-user_name user_1 = refl
  read_user-user_name user_2 = refl

  pub serialize_conversation_entry_lem :
      (c : ConversationEntry)
      → (j : Json) × (serialize_conversation_entry J c ≡ ok j)
        × (read_conversation_entry J j ≡ some c)
  unfolding serialize_conversation_entry bytes_eq
  serialize_conversation_entry_lem c =
      let (j, e, o, message, user) =
        set_two (codes "message") (codes "user") (J.of_string c.message)
          (J.of_string (user_name J c.user)) refl in
      (
        j,
        e,
        rw (user, message, L.get_string-of_string, L.get_string-of_string, read_user-user_name),
      )
