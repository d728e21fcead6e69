-- ===== src/Json/Members.antt =====
-- Reading the members of a JSON value.
use feedback_ingest.Base.{
  ◌≡◌, sym, ap, ◌∙◌, inl, inr, arith, true, false, none, some, Bytes, Bool-cases, Option-cases,
}
use feedback_ingest.Base.{Outcome, ok, ok-injective}
use feedback_ingest.Json.{JsonLibrary, IsLawful, contains, parse_json}

module _ (J : JsonLibrary) where
  -- The member `k` is there, and its value reads as `a`.
  abbrev pub HasMember {ℓ} : {A : Type ℓ} → (J.Json → Outcome A) → J.Json → Bytes → A → Type ℓ
  HasMember get j k a = (v : J.Json) × (J.find j k ≡ some v) × (get v ≡ ok a)

  pub contains_found : (j v : J.Json) (k : Bytes) → J.find j k ≡ some v → contains J j k ≡ true
  unfolding contains
  contains_found j v k e = rw (e, contains)

  pub contains_missing : (j : J.Json) (k : Bytes) → J.find j k ≡ none → contains J j k ≡ false
  unfolding contains
  contains_missing j k e = rw (e, contains)

  pub parse_json-some : (s : Bytes) (j : J.Json) → J.parse s ≡ some j → parse_json J s ≡ ok j
  unfolding parse_json
  parse_json-some s j e = rw (e, parse_json)

  pub parse_json-ok : (s : Bytes) (j : J.Json) → parse_json J s ≡ ok j → J.parse s ≡ some j
  unfolding parse_json
  parse_json-ok s j e = ground arith

module _ (J : JsonLibrary) (L : IsLawful J) where
  -- A member of a `const` value that is read is there.
  pub at-ok : (j v : J.Json) (k : Bytes) → J.at j k ≡ ok v → J.find j k ≡ some v
  at-ok j v k e = elim (Option-cases (J.find j k)) [
    | inl missing ↦ elim (Bool-cases (J.is_object j)) [
      | inl object ↦ absurd (cc (L.at_missing j k object missing))
      | inr other ↦ absurd (cc (L.at_no_object j k other))
    ]
    | inr (w, there) ↦ there ∙ ap some (ok-injective (sym (L.at_found j w k there) ∙ e))
  ]
