-- ===== src/Tests/Forums.antt =====
-- A run of include/data_source/discourse from the answers of the forum to the file that is written.
use feedback_ingest.Base.{
  bytes_eq, nat_eq, true, false, Option, some, List, [], ◌∷◌, ◌++◌, Bytes, refl, codes, ok, ◌≡◌,
}
use feedback_ingest.Base.Int.{pos, int_eq}
use feedback_ingest.Json.Tree.{Value, real, int, string, tree_library, tree_library-IsLawful}
use feedback_ingest.Platform.{Platform}
use feedback_ingest.Effects.{
  Event, returned, now, resolve, create_directories, open_output, write_output,
}
use feedback_ingest.Effects.Runs.{Run, returns, ◌▸◌}
use feedback_ingest.HttpOps.{
  service_of, make_http_get_header, http_get, parsed, get_over, make_get_request_to_socket,
  read_or_wait, body_in_time,
}
use feedback_ingest.HttpOps.Bodies.{bodies}
use feedback_ingest.HttpOps.Fetch.{exchange, connection}
use feedback_ingest.Sink.{
  schema_base_path, json_sink, write, print_to, write_file, make_directories, create_dir_name,
  create_json_file_name,
}
use feedback_ingest.Sink.Files.{Written}
use feedback_ingest.Serializer.{serialize_to_json}
use feedback_ingest.Discourse.Algorithms.{get_post_ids, raw_posts_to_schema}
use feedback_ingest.Discourse.Operation.{extract_transform_and_load, fetch_posts_between}
use feedback_ingest.Discourse.Posts.{PostData, schema_of}
use feedback_ingest.Discourse.Rounds.{greeting}
use feedback_ingest.Discourse.Stored.{extract_transform_and_load-WrittenAfter}
use feedback_ingest.Tests.Documents.{search, topic_page, stream, posts}
use feedback_ingest.Tests.Requests.{forum, forum_self, web}

-- The forum answers the search with an empty text, and the request for the posts with another one.
abbrev answer : Bytes → Option Value
answer [] = some search
answer (b ∷ bs) = some topic_page

abbrev forum_web : Platform
forum_web = record web { json = tree_library answer }

abbrev post_data : PostData forum_web.json
post_data = record { score = 4; readers_count = pos 9; cooked = codes "ok" }

abbrev request_answered : Bytes → List (Event forum_web)
request_answered body =
    (resolve forum.encoded_host (service_of forum), ok tt)
    ∷ (connection forum_web false tt tt
        ++ exchange forum_web tt (make_http_get_header forum_web.beast_version forum) body)

abbrev round_begun : List (Event forum_web)
round_begun =
    (greeting forum_web forum_self, tt)
    ∷ (now, 3)
    ∷ (request_answered [] ++ request_answered (codes "p"))

abbrev posts_written : List (Event forum_web)
posts_written =
    (create_directories (create_dir_name schema_base_path (pos 2)), true)
    ∷ (now, 5)
    ∷ (open_output (create_json_file_name schema_base_path (pos 5) (pos 1) (pos 2)), tt)
    ∷ (write_output (create_json_file_name schema_base_path (pos 5) (pos 1) (pos 2)) [], tt)
    ∷ []

round_done :
    Run
      (extract_transform_and_load forum_web (json_sink _) forum_self 0)
      (round_begun ++ posts_written)
      (returned tt)
unfolding extract_transform_and_load fetch_posts_between http_get parsed get_over
    make_get_request_to_socket read_or_wait body_in_time get_post_ids raw_posts_to_schema write
    make_directories print_to write_file serialize_to_json bytes_eq nat_eq int_eq
round_done = _ ▸ _ ▸ _ ▸ _ ▸ _ ▸ _ ▸ _ ▸ _ ▸ _ ▸ _ ▸ _ ▸ _ ▸ _ ▸ _ ▸ _ ▸ _ ▸ returns

extract_transform_and_load-WrittenAfter_example :
    (before more : List (Event forum_web)) × (round_begun ++ posts_written ≡ before ++ more)
    × (bodies before ≡ [] ∷ codes "p" ∷ [])
    × Written forum_web (schema_of _ (pos 1) (pos 2) post_data ∷ []) more (returned tt)
unfolding bytes_eq
extract_transform_and_load-WrittenAfter_example =
    extract_transform_and_load-WrittenAfter forum_web forum_self (tree_library-IsLawful _) []
      (codes "p") [] topic_page stream posts (post_data ∷ []) refl refl refl
      (
        record {
          score = (real 4, refl, refl);
          readers_count = (int (pos 9), refl, refl);
          cooked = (string (codes "ok"), refl, refl);
        },
        tt,
      )
      0 round_done refl
