-- ===== src/Notifyu/Reviews.antt =====
-- What include/data_source/notifyu/algorithms.hpp makes of the body of a request.
use feedback_ingest.Base.{
  ◌≡◌, ap, true, arith, none, some, List, [], ◌∷◌, Bytes, codes, map, All, AllPairs,
}
use feedback_ingest.Base.{ok, undefined, >>=-ok, ok-injective, traverse-All, traverse-AllPairs}
use feedback_ingest.Base.Int.{ℤ}
use feedback_ingest.Json.{JsonLibrary, IsLawful, parse_json}
use feedback_ingest.Json.Members.{HasMember, parse_json-some}
use mathlib.Core.Path.{subst}
use feedback_ingest.Schema.Stamp.{IsStamped}
use feedback_ingest.Schema.{review, Schema}
use feedback_ingest.Notifyu.Algorithms.{parse_schema, parse_schema_list, parse_content}

module _ (J : JsonLibrary) where
  open J use {Json, Real}

  -- What a review of the README's sample body tells.
  pub record ReviewData : Type 0 where
    pub country : Bytes
    pub app_version : Bytes
    pub rating : Real
    pub likes : ℤ
    pub text : Bytes

  pub record ShowsReview (j : Json) (r : ReviewData) : Type 0 where
    pub country : HasMember J J.get_string j (codes "country") r.country
    pub app_version : HasMember J J.get_string j (codes "app_version") r.app_version
    pub rating : HasMember J J.get_real j (codes "rating") r.rating
    pub likes : HasMember J J.get_int j (codes "likes") r.likes
    pub text : HasMember J J.get_string j (codes "review") r.text

  abbrev pub schema_of : ℤ → ℤ → ReviewData → Schema Real
  schema_of source_id tenant_id r = record {
    source_id = source_id;
    tenant_id = tenant_id;
    entry = record {
      metadata = record {
        location = some r.country;
        app_version = some r.app_version;
        rating = some r.rating;
        impressions = some r.likes;
      };
      feedback = review r.text;
    };
  }

module _ (J : JsonLibrary) (L : IsLawful J) (source_id tenant_id : ℤ) where
  open J use {Json, Real}

  parse_schema-ShowsReview :
      (j : Json) (r : ReviewData J)
      → ShowsReview J j r
      → parse_schema J source_id tenant_id j ≡ ok (schema_of J source_id tenant_id r)
  unfolding parse_schema
  parse_schema-ShowsReview j r h = rw (
    L.at_found j _ _ h.country.1,
    h.country.2,
    L.at_found j _ _ h.app_version.1,
    h.app_version.2,
    L.at_found j _ _ h.rating.1,
    h.rating.2,
    L.at_found j _ _ h.likes.1,
    h.likes.2,
    L.at_found j _ _ h.text.1,
    h.text.2,
  )

  -- A body with a secret token and a stream of reviews is read as the token and one schema for each
  -- review, in their order.
  pub parse_content-ShowsReview :
      (content : Bytes) (j stream : Json) (token : Bytes) (rs : List (ReviewData J))
      → J.parse content ≡ some j
      → HasMember J J.get_string j (codes "secret_token") token
      → J.find j (codes "review_stream") ≡ some stream
      → AllPairs (ShowsReview J) (J.elements stream) rs
      → parse_content J source_id tenant_id content
        ≡ ok (token, map (schema_of J source_id tenant_id) rs)
  unfolding parse_content
  parse_content-ShowsReview content j stream token rs parsed has_token found shows = rw (
    parse_json-some J content j parsed,
    L.index_found j _ _ has_token.1,
    has_token.2,
    L.index_found j stream _ found,
    traverse-AllPairs (ShowsReview J) (parse_schema J source_id tenant_id)
        (schema_of J source_id tenant_id) parse_schema-ShowsReview (J.elements stream) rs shows,
  )

  -- A body with a secret token and no stream of reviews is read as the token and no schema.
  pub parse_content_no_stream :
      (content : Bytes) (j : Json) (token : Bytes)
      → J.parse content ≡ some j
      → J.is_object j ≡ true
      → HasMember J J.get_string j (codes "secret_token") token
      → J.find j (codes "review_stream") ≡ none
      → parse_content J source_id tenant_id content ≡ ok (token, [])
  unfolding parse_content
  parse_content_no_stream content j token parsed object has_token missing = rw (
    parse_json-some J content j parsed,
    L.index_found j _ _ has_token.1,
    has_token.2,
    L.index_missing j _ object missing,
    L.elements-null,
  )

  parse_schema_no_country :
      (r : Json)
      → J.is_object r ≡ true
      → J.find r (codes "country") ≡ none
      → parse_schema J source_id tenant_id r ≡ undefined
  unfolding parse_schema
  parse_schema_no_country r object missing = rw (L.at_missing r _ object missing)

  -- A review that lacks its country, and comes first in a body with a string for a token, whatever
  -- that token is, makes the behaviour undefined: the member of a `const` value is not checked.
  pub parse_content_no_country :
      (content : Bytes) (j stream r : Json) (token : Bytes) (rest : List Json)
      → J.parse content ≡ some j
      → HasMember J J.get_string j (codes "secret_token") token
      → J.find j (codes "review_stream") ≡ some stream
      → J.elements stream ≡ r ∷ rest
      → J.is_object r ≡ true
      → J.find r (codes "country") ≡ none
      → parse_content J source_id tenant_id content ≡ undefined
  unfolding parse_content
  parse_content_no_country content j stream r token rest parsed has_token found first object
        missing =
      rw (
        parse_json-some J content j parsed,
        L.index_found j _ _ has_token.1,
        has_token.2,
        L.index_found j stream _ found,
        first,
        parse_schema_no_country r object missing,
      )

module _ (J : JsonLibrary) (source_id tenant_id : ℤ) where
  parse_schema-IsStamped :
      (j : J.Json) (s : Schema J.Real)
      → parse_schema J source_id tenant_id j ≡ ok s
      → IsStamped source_id tenant_id s
  unfolding parse_schema
  parse_schema-IsStamped j s e = ground arith

  -- Whatever a body holds, every schema that it is read as carries the ids of the source and the
  -- tenant.
  pub parse_content-IsStamped :
      (content token : Bytes) (ss : List (Schema J.Real))
      → parse_content J source_id tenant_id content ≡ ok (token, ss)
      → All (IsStamped source_id tenant_id) ss
  unfolding parse_content
  parse_content-IsStamped content token ss e =
      let (json, e₁, f₁) = >>=-ok (parse_json J content) _ e in
      let (found, e₂, f₂) = >>=-ok (J.index json (codes "secret_token")) _ f₁ in
      let (secret, e₃, f₃) = >>=-ok (J.get_string found) _ f₂ in
      let (stream, e₄, f₄) = >>=-ok (J.index json (codes "review_stream")) _ f₃ in
      let (ss', e₅, f₅) = >>=-ok (parse_schema_list J source_id tenant_id stream) _ f₄ in
      let stamped : All (IsStamped source_id tenant_id) ss' =
        (traverse-All (IsStamped source_id tenant_id) (parse_schema J source_id tenant_id)
          parse_schema-IsStamped (J.elements stream) ss' e₅).0 in
      subst (All (IsStamped source_id tenant_id))
        (ap (λ (t : Bytes × List (Schema J.Real)). t.1) (ok-injective f₅)) stamped
