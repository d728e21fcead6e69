-- ===== src/Discourse/Posts.antt =====
-- What include/data_source/discourse/algorithms.hpp makes of the answers of the forum.
use feedback_ingest.Base.{
  ◌≡◌, refl, arith, none, some, List, [], ◌∷◌, Bytes, codes, map, All, AllPairs, ◌==◌,
  if◌then◌else◌,
}
use feedback_ingest.Base.{ok, >>=-ok, traverse-All, traverse-AllPairs}
use feedback_ingest.Base.Int.{ℤ, int_eq}
use feedback_ingest.Json.{JsonLibrary, IsLawful, parse_json}
use feedback_ingest.Json.Members.{HasMember, parse_json-some}
use feedback_ingest.Schema.Stamp.{IsStamped}
use feedback_ingest.Schema.{review, Schema}
use feedback_ingest.Discourse.Algorithms.{
  is_required_topic, get_post_id, filter_posts, get_post_ids, post_to_data_source_entry,
  post_to_schema, raw_posts_to_schema,
}

-- What the search tells of a post.
pub record PostHit : Type 0 where
  pub topic : ℤ
  pub id : ℤ

-- The ids of the posts on a topic, in their order.
abbrev pub ids_on : ℤ → List PostHit → List ℤ
ids_on topic [] = []
ids_on topic (p ∷ ps) = let rest = ids_on topic ps in if p.topic == topic then p.id ∷ rest else rest

module _ (J : JsonLibrary) where
  open J use {Json, Real}

  pub record ShowsHit (j : Json) (p : PostHit) : Type 0 where
    pub topic : J.find j (codes "topic_id") ≡ some (J.of_int p.topic)
    pub id : J.find j (codes "id") ≡ some (J.of_int p.id)

  -- What the second answer tells of a post.
  pub record PostData : Type 0 where
    pub score : Real
    pub readers_count : ℤ
    pub cooked : Bytes

  pub record ShowsPost (j : Json) (p : PostData) : Type 0 where
    pub score : HasMember J J.get_real j (codes "score") p.score
    pub readers_count : HasMember J J.get_int j (codes "readers_count") p.readers_count
    pub cooked : HasMember J J.get_string j (codes "cooked") p.cooked

  abbrev pub schema_of : ℤ → ℤ → PostData → Schema Real
  schema_of source_id tenant_id p = record {
    source_id = source_id;
    tenant_id = tenant_id;
    entry = record {
      metadata = record {
        location = none;
        app_version = none;
        rating = some p.score;
        impressions = some p.readers_count;
      };
      feedback = review p.cooked;
    };
  }

module _ (J : JsonLibrary) (L : IsLawful J) where
  open J use {Json, Real}

  ShowsHit-topic :
      (topic : ℤ) (j : Json) (p : PostHit)
      → ShowsHit J j p
      → is_required_topic J topic j ≡ ok (p.topic == topic)
  unfolding is_required_topic
  ShowsHit-topic topic j p h = rw (L.at_found j _ _ h.topic, L.equals_int-of_int)

  ShowsHit-id : (j : Json) (p : PostHit) → ShowsHit J j p → get_post_id J j ≡ ok p.id
  unfolding get_post_id
  ShowsHit-id j p h = rw (L.at_found j _ _ h.id, L.get_int-of_int)

  filter_posts-ids_on :
      (topic : ℤ) (js : List Json) (ps : List PostHit)
      → AllPairs (ShowsHit J) js ps
      → filter_posts J topic js ≡ ok (ids_on topic ps)
  unfolding filter_posts
  filter_posts-ids_on topic [] [] _ = refl
  filter_posts-ids_on topic [] (p ∷ ps) h = elim h [ ]
  filter_posts-ids_on topic (j ∷ js) [] h = elim h [ ]
  filter_posts-ids_on topic (j ∷ js) (p ∷ ps) (h, hs) =
      rw (ShowsHit-topic topic j p h, ShowsHit-id j p h, filter_posts-ids_on topic js ps hs)
        (ground arith)

  -- An answer of the search is read as the ids of exactly the posts on the topic, in their order.
  pub get_post_ids-ids_on :
      (content : Bytes) (j posts : Json) (topic : ℤ) (ps : List PostHit)
      → J.parse content ≡ some j
      → J.find j (codes "posts") ≡ some posts
      → AllPairs (ShowsHit J) (J.elements posts) ps
      → get_post_ids J content topic ≡ ok (ids_on topic ps)
  unfolding get_post_ids
  get_post_ids-ids_on content j posts topic ps parsed found shows = rw (
    parse_json-some J content j parsed,
    L.index_found j posts _ found,
    filter_posts-ids_on topic (J.elements posts) ps shows,
  )

  ShowsPost-schema :
      (source_id tenant_id : ℤ) (j : Json) (p : PostData J)
      → ShowsPost J j p
      → post_to_schema J source_id tenant_id j ≡ ok (schema_of J source_id tenant_id p)
  unfolding post_to_schema post_to_data_source_entry
  ShowsPost-schema source_id tenant_id j p h = rw (
    L.at_found j _ _ h.score.1,
    h.score.2,
    L.at_found j _ _ h.readers_count.1,
    h.readers_count.2,
    L.at_found j _ _ h.cooked.1,
    h.cooked.2,
  )

  -- An answer with a post stream is read as one schema for each of its posts, in their order.
  pub raw_posts_to_schema-ShowsPost :
      (source_id tenant_id : ℤ) (content : Bytes) (j stream posts : Json) (ps : List (PostData J))
      → J.parse content ≡ some j
      → J.find j (codes "post_stream") ≡ some stream
      → J.find stream (codes "posts") ≡ some posts
      → AllPairs (ShowsPost J) (J.elements posts) ps
      → raw_posts_to_schema J content source_id tenant_id
        ≡ ok (map (schema_of J source_id tenant_id) ps)
  unfolding raw_posts_to_schema
  raw_posts_to_schema-ShowsPost source_id tenant_id content j stream posts ps parsed in_json
        in_stream shows =
      rw (
        parse_json-some J content j parsed,
        L.index_found j stream _ in_json,
        L.index_found stream posts _ in_stream,
        traverse-AllPairs (ShowsPost J) (post_to_schema J source_id tenant_id)
            (schema_of J source_id tenant_id) (ShowsPost-schema source_id tenant_id)
            (J.elements posts) ps shows,
      )

module _ (J : JsonLibrary) (source_id tenant_id : ℤ) where
  post_to_schema-IsStamped :
      (j : J.Json) (s : Schema J.Real)
      → post_to_schema J source_id tenant_id j ≡ ok s
      → IsStamped source_id tenant_id s
  unfolding post_to_schema post_to_data_source_entry
  post_to_schema-IsStamped j s e = ground arith

  -- Whatever an answer holds, every schema that it is read as carries the ids of the source and the
  -- tenant.
  pub raw_posts_to_schema-IsStamped :
      (content : Bytes) (ss : List (Schema J.Real))
      → raw_posts_to_schema J content source_id tenant_id ≡ ok ss
      → All (IsStamped source_id tenant_id) ss
  unfolding raw_posts_to_schema
  raw_posts_to_schema-IsStamped content ss e =
      let (json, e₁, f₁) = >>=-ok (parse_json J content) _ e in
      let (stream, e₂, f₂) = >>=-ok (J.index json (codes "post_stream")) _ f₁ in
      let (posts, e₃, f₃) = >>=-ok (J.index stream (codes "posts")) _ f₂ in
      (traverse-All (IsStamped source_id tenant_id) (post_to_schema J source_id tenant_id)
        post_to_schema-IsStamped (J.elements posts) ss f₃).0
