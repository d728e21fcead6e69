-- ===== src/Notifyu/Algorithms.antt =====
-- include/data_source/notifyu/algorithms.hpp
use feedback_ingest.Base.{Bool, some, List, Bytes, codes, ◌==◌, bytes_eq}
use feedback_ingest.Base.{Outcome, ok, ◌>>=◌, traverse}
use feedback_ingest.Base.Int.{ℤ}
use feedback_ingest.Json.{JsonLibrary, parse_json}
use feedback_ingest.Schema.{review, Schema}

module _ (J : JsonLibrary) where
  open J use {Json, Real}

  unfoldable pub parse_schema : ℤ → ℤ → Json → Outcome (Schema Real)
  parse_schema source_id tenant_id json = do
    country ← J.at json (codes "country")
    location ← J.get_string country
    version ← J.at json (codes "app_version")
    app_version ← J.get_string version
    score ← J.at json (codes "rating")
    rating ← J.get_real score
    likes ← J.at json (codes "likes")
    impressions ← J.get_int likes
    said ← J.at json (codes "review")
    text ← J.get_string said
    ok (record {
      source_id = source_id;
      tenant_id = tenant_id;
      entry = record {
        metadata = record {
          location = some location;
          app_version = some app_version;
          rating = some rating;
          impressions = some impressions;
        };
        feedback = review text;
      };
    })

  unfoldable pub parse_schema_list : ℤ → ℤ → Json → Outcome (List (Schema Real))
  unfolding parse_schema
  parse_schema_list source_id tenant_id json =
      traverse (parse_schema source_id tenant_id) (J.elements json)

  -- The secret token and the schemas.
  unfoldable pub parse_content : ℤ → ℤ → Bytes → Outcome (Bytes × List (Schema Real))
  unfolding parse_json parse_schema_list
  parse_content source_id tenant_id content = do
    json ← parse_json J content
    token ← J.index json (codes "secret_token")
    secret_token ← J.get_string token
    stream ← J.index json (codes "review_stream")
    schemas ← parse_schema_list source_id tenant_id stream
    ok (secret_token, schemas)

unfoldable pub is_good_secret_token : Bytes → Bool
unfolding bytes_eq
is_good_secret_token token = token == codes "12345678"
