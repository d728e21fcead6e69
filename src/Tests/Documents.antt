-- ===== src/Tests/Documents.antt =====
-- Runs of the readers and the writer of JSON: include/data_source/*/algorithms.hpp and
-- include/schema_serializers.
use feedback_ingest.Filepp.Accepted.{to_schema_only_documents}
use feedback_ingest.Base.{
  AllPairs, map, ℕ, ◌≡◌, refl, some, none, List, [], ◌∷◌, codes, ok, undefined, bytes_eq,
}
use feedback_ingest.Base.Int.{ℤ, pos, int_eq}
use feedback_ingest.Json.{JsonLibrary}
use feedback_ingest.Json.Tree.{
  Value, null, string, int, real, array, object, nil, cons, Members, end, member, tree_library,
  tree_library-IsLawful,
}
use feedback_ingest.Schema.{user_1, user_2, Schema, conversation}
use feedback_ingest.Serializer.{serialize_to_json}
use feedback_ingest.Serializer.Reader.{read_all, read_schema}
use feedback_ingest.Serializer.RoundTrip.{serialize_to_json_lem}
use feedback_ingest.Discourse.Algorithms.{get_post_ids}
use feedback_ingest.Discourse.Posts
use feedback_ingest.Discourse.Posts.{
  get_post_ids-ids_on, raw_posts_to_schema-ShowsPost, raw_posts_to_schema-IsStamped,
}
use feedback_ingest.Filepp.Algorithms.{get_conversation_entry, to_schema}
use feedback_ingest.Filepp.Conversations
use feedback_ingest.Filepp.Conversations.{to_schema-ShowsDocument, to_schema-IsStamped}
use feedback_ingest.Notifyu.Algorithms.{parse_content}
use feedback_ingest.Notifyu.Reviews
use feedback_ingest.Notifyu.Reviews.{
  parse_content-ShowsReview, parse_content_no_country, parse_content-IsStamped,
}

-- A library whose parser gives one value.
abbrev reading : Value → JsonLibrary
reading j = tree_library (λ _. some j)

abbrev schemas : List (Schema ℕ)
schemas =
    (record {
      source_id = pos 1;
      tenant_id = pos 2;
      entry = record {
        metadata = record {
          location = none;
          app_version = some (codes "1");
          rating = some 5;
          impressions = none;
        };
        feedback = conversation (
            (record { user = user_1; message = codes "hi" })
            ∷ (record { user = user_2; message = codes "yes" })
            ∷ []);
      };
    })
    ∷ []

serialize_to_json_lem_example :
    (j : Value) × (serialize_to_json (reading null) schemas ≡ ok j)
    × (read_all (read_schema (reading null)) ((reading null).elements j) ≡ some schemas)
serialize_to_json_lem_example =
    serialize_to_json_lem (reading null) (tree_library-IsLawful _) schemas

-- What the forum answers to the search.
abbrev hit : ℤ → ℤ → Value
hit topic id = object (member (codes "id") (int id) (member (codes "topic_id") (int topic) end))

abbrev hits : Value
hits = array (cons (hit (pos 7) (pos 3)) (cons (hit (pos 8) (pos 4)) nil))

abbrev pub search : Value
search = object (member (codes "posts") hits end)

abbrev post_hits : List Posts.PostHit
post_hits = record { topic = pos 7; id = pos 3 } ∷ record { topic = pos 8; id = pos 4 } ∷ []

get_post_ids-ids_on_example :
    get_post_ids (reading search) [] (pos 7) ≡ ok (Posts.ids_on (pos 7) post_hits)
unfolding bytes_eq
get_post_ids-ids_on_example =
    get_post_ids-ids_on (reading search) (tree_library-IsLawful _) [] search hits (pos 7) post_hits
      refl refl (record { topic = refl; id = refl }, (record { topic = refl; id = refl }, tt))

abbrev post : Value
post = object (
    member (codes "score") (real 4) (
      member (codes "readers_count") (int (pos 9))
        (member (codes "cooked") (string (codes "ok")) end)))

abbrev pub posts : Value
posts = array (cons post nil)

abbrev pub stream : Value
stream = object (member (codes "posts") posts end)

abbrev pub topic_page : Value
topic_page = object (member (codes "post_stream") stream end)

-- A file of one document.
abbrev said : Value
said = object (member (codes "User") (string (codes "hi")) end)

abbrev replied : Value
replied = object (member (codes "Support") (string (codes "yes")) end)

abbrev pub messages : Value
messages = array (cons said (cons replied nil))

abbrev document : Value
document =
    object (
      member (codes "app_version") (string (codes "1"))
        (member (codes "conversation") messages end))

abbrev pub file : Value
file = array (cons document nil)

abbrev pub document_data : Conversations.DocumentData (reading file)
document_data = record {
  app_version = codes "1";
  talk =
      record { user = user_1; message = codes "hi" }
      ∷ record { user = user_2; message = codes "yes" }
      ∷ [];
}

-- The behaviour is undefined on a message under neither "User" nor "Support".
unknown_speaker : get_conversation_entry (reading null) (object end) ≡ undefined
unfolding get_conversation_entry bytes_eq
unknown_speaker = refl

file_is_read :
    to_schema (reading file) (pos 1) (pos 2) []
    ≡ ok (Conversations.schema_of (reading file) (pos 1) (pos 2) document_data ∷ [])
unfolding to_schema bytes_eq
file_is_read = refl

to_schema_only_documents_example :
    (j : Value) × (documents : List (Conversations.DocumentData (reading file))) × (some file
      ≡ some j)
    × AllPairs (Conversations.ShowsDocument (reading file)) ((reading file).elements j) documents
    × (Conversations.schema_of (reading file) (pos 1) (pos 2) document_data ∷ []
        ≡ map (Conversations.schema_of (reading file) (pos 1) (pos 2)) documents)
to_schema_only_documents_example =
    to_schema_only_documents (reading file) (tree_library-IsLawful _) (pos 1) (pos 2) [] _
      file_is_read

-- The body of a request.
abbrev token : Members → Value
token rest = object (member (codes "secret_token") (string (codes "12345678")) rest)

abbrev review_value : Value
review_value = object (
    member (codes "country") (string (codes "in")) (
      member (codes "app_version") (string (codes "2")) (
        member (codes "rating") (real 3) (
          member (codes "likes") (int (pos 6))
            (member (codes "review") (string (codes "ok")) end)))))

abbrev pub reviews : Value
reviews = array (cons review_value nil)

abbrev pub body : Value
body = token (member (codes "review_stream") reviews end)

abbrev pub review_data : Reviews.ReviewData (reading body)
review_data = record {
  country = codes "in";
  app_version = codes "2";
  rating = 3;
  likes = pos 6;
  text = codes "ok";
}

parse_content-ShowsReview_example :
    parse_content (reading body) (pos 1) (pos 2) []
    ≡ ok (codes "12345678", Reviews.schema_of (reading body) (pos 1) (pos 2) review_data ∷ [])
unfolding bytes_eq
parse_content-ShowsReview_example =
    parse_content-ShowsReview (reading body) (tree_library-IsLawful _) (pos 1) (pos 2) [] body
      reviews (codes "12345678") (review_data ∷ []) refl (string (codes "12345678"), refl, refl)
      refl
      (
        record {
          country = (string (codes "in"), refl, refl);
          app_version = (string (codes "2"), refl, refl);
          rating = (real 3, refl, refl);
          likes = (int (pos 6), refl, refl);
          text = (string (codes "ok"), refl, refl);
        },
        tt,
      )

abbrev bare_reviews : Value
bare_reviews = array (cons (object end) nil)

abbrev bare : Value
bare = token (member (codes "review_stream") bare_reviews end)

parse_content_no_country_example : parse_content (reading bare) (pos 1) (pos 2) [] ≡ undefined
unfolding bytes_eq
parse_content_no_country_example =
    parse_content_no_country (reading bare) (tree_library-IsLawful _) (pos 1) (pos 2) [] bare
      bare_reviews (object end) (codes "12345678") [] refl (string (codes "12345678"), refl, refl)
      refl refl refl refl
