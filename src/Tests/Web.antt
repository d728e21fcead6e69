-- ===== src/Tests/Web.antt =====
-- Runs of the client of include/http_ops.hpp, and the names of files.
use feedback_ingest.Base.{ℕ, ◌≡◌, refl, none, some, codes, arith}
use feedback_ingest.Base.Int.{pos}
use feedback_ingest.Json.Tree.{tree_library}
use feedback_ingest.Platform.{Platform, Url}
use feedback_ingest.Effects.{Ensures}
use feedback_ingest.Sink.Names.{create_json_file_name-injective}
use feedback_ingest.HttpOps.{http_get}
use feedback_ingest.HttpOps.Fetch.{Fetched, http_get-Fetched, first_ending, http_get-first_ending}

abbrev forum : Url
forum = record {
  scheme = codes "https";
  encoded_host = codes "meta.discourse.org";
  port = none;
  encoded_target = codes "/search.json";
}

abbrev web : Platform
web = record {
  json = tree_library (λ _. none);
  parse_uri = λ _. some forum;
  beast_version = codes "Boost.Beast/347";
  Time = ℕ;
  date = λ _. codes "2023-01-01";
  count = pos;
  year_2023 = 0;
  Endpoints = Unit {0};
  Socket = Unit {0};
}

http_get-Fetched_example :
    Ensures (Fetched web forum) (http_get web (codes "https://meta.discourse.org/search.json"))
http_get-Fetched_example =
    http_get-Fetched web (codes "https://meta.discourse.org/search.json") forum refl

http_get-first_ending_example :
    Ensures
      (λ events ending. first_ending web events ≡ some ending)
      (http_get web (codes "https://meta.discourse.org/search.json"))
http_get-first_ending_example =
    http_get-first_ending web (codes "https://meta.discourse.org/search.json") forum refl

create_json_file_name-injective_example : (pos 1 ≡ pos 1) × (pos 2 ≡ pos 2) × (pos 5 ≡ pos 5)
create_json_file_name-injective_example =
    create_json_file_name-injective (codes "/d") (pos 5) (pos 5) (pos 1) (pos 1) (pos 2) (pos 2)
      (omega arith) (omega arith) (omega arith) (omega arith) refl
