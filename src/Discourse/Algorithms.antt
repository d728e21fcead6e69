-- ===== src/Discourse/Algorithms.antt =====
-- include/data_source/discourse/algorithms.hpp
use feedback_ingest.Base.{Bool, none, some, List, [], ◌∷◌, ◌++◌, Bytes, codes, if◌then◌else◌}
use feedback_ingest.Base.{Outcome, ok, ◌>>=◌, traverse}
use feedback_ingest.Base.Int.{ℤ}
use feedback_ingest.Base.Decimal.{to_string}
use feedback_ingest.Json.{JsonLibrary, parse_json}
use feedback_ingest.Schema.{DataSourceEntry, Schema, review}

-- `fmt::join(ids, ",")`
unfoldable pub join_ids : List ℤ → Bytes
unfolding to_string
join_ids [] = []
join_ids (i ∷ []) = to_string i
join_ids (i ∷ j ∷ is) = to_string i ++ (b',' ∷ join_ids (j ∷ is))

unfoldable pub make_url_for_post_ids : ℤ → List ℤ → Bytes
unfolding join_ids
make_url_for_post_ids topic_id ids =
    codes "https://meta.discourse.org/t/"
    ++ (to_string topic_id ++ (codes "/posts.json?post_ids%5B%5D=" ++ join_ids ids))

-- `Time` is `std::chrono::system_clock::time_point`, and `date` is fmt's `{:%Y-%m-%d}`.
module _ {Time : Type 0} (date : Time → Bytes) where
  unfoldable pub make_url_for_posts_between : Time → Time → Bytes
  make_url_for_posts_between begin end =
      codes "https://meta.discourse.org/search.json?q=after%3a"
      ++ (date begin ++ (codes "+before%3a" ++ date end))

module _ (J : JsonLibrary) where
  open J use {Json, Real}

  unfoldable pub get_all_posts : Bytes → Outcome Json
  unfolding parse_json
  get_all_posts str = do j ← parse_json J str; J.index j (codes "posts")

  -- The lambdas of `get_post_ids` and its loop, one post after the other.
  unfoldable pub is_required_topic : ℤ → Json → Outcome Bool
  is_required_topic topic_id post = do
    topic ← J.at post (codes "topic_id")
    ok (J.equals_int topic topic_id)

  unfoldable pub get_post_id : Json → Outcome ℤ
  get_post_id post = do id ← J.at post (codes "id"); J.get_int id

  unfoldable pub filter_posts : ℤ → List Json → Outcome (List ℤ)
  filter_posts topic_id [] = ok []
  filter_posts topic_id (post ∷ posts) =
      let rest = filter_posts topic_id posts in
      is_required_topic topic_id post >>= λ required.
      if required then (get_post_id post >>= λ id. rest >>= λ ids. ok (id ∷ ids)) else rest

  unfoldable pub get_post_ids : Bytes → ℤ → Outcome (List ℤ)
  unfolding get_all_posts filter_posts is_required_topic get_post_id
  get_post_ids str topic_id = do posts ← get_all_posts str; filter_posts topic_id (J.elements posts)

  unfoldable pub post_to_data_source_entry : Json → Outcome (DataSourceEntry Real)
  post_to_data_source_entry post = do
    score ← J.at post (codes "score")
    rating ← J.get_real score
    readers ← J.at post (codes "readers_count")
    impressions ← J.get_int readers
    cooked ← J.at post (codes "cooked")
    text ← J.get_string cooked
    ok (record {
      metadata = record {
        location = none;
        app_version = none;
        rating = some rating;
        impressions = some impressions;
      };
      feedback = review text;
    })

  unfoldable pub to_schema : ℤ → ℤ → DataSourceEntry Real → Schema Real
  to_schema source_id tenant_id entry = record {
    source_id = source_id;
    tenant_id = tenant_id;
    entry = entry;
  }

  unfoldable pub post_to_schema : ℤ → ℤ → Json → Outcome (Schema Real)
  unfolding to_schema
  post_to_schema source_id tenant_id post = do
    entry ← post_to_data_source_entry post
    ok (to_schema source_id tenant_id entry)

  unfoldable pub raw_posts_to_schema : Bytes → ℤ → ℤ → Outcome (List (Schema Real))
  unfolding parse_json post_to_schema post_to_data_source_entry
  raw_posts_to_schema str source_id tenant_id = do
    json ← parse_json J str
    stream ← J.index json (codes "post_stream")
    posts ← J.index stream (codes "posts")
    traverse (post_to_schema source_id tenant_id) (J.elements posts)
