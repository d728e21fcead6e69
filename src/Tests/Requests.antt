-- ===== src/Tests/Requests.antt =====
-- Runs of the sources and the server, from their start or a request on.
use feedback_ingest.Base.{◌≡◌, refl, some, none, [], ◌∷◌, codes, bytes_eq, nat_eq}
use feedback_ingest.Base.Int.{pos}
use feedback_ingest.Json.Tree.{null, string, tree_library-IsLawful}
use feedback_ingest.Platform.{Platform}
use feedback_ingest.Effects.{Ensures}
use feedback_ingest.Sink.{json_sink}
use feedback_ingest.Sink.Files.{Written, write-Written}
use feedback_ingest.Timer.{execute_every}
use feedback_ingest.Timer.Polling.{Polls}
use feedback_ingest.Notifyu.Algorithms.{is_good_secret_token}
use feedback_ingest.Notifyu.Operation.{extract_transform_and_load}
use feedback_ingest.Platform.{Url}
use feedback_ingest.HttpOps.Fetch.{first_ending, http_get-first_ending}
use feedback_ingest.Filepp.{FileppOperationState}
use feedback_ingest.Filepp.Operation as FileppOperation
use feedback_ingest.Filepp.Polling as FileppPolling
use feedback_ingest.Filepp.Polling.{PollsFromNow, start-PollsFromNow}
use feedback_ingest.Discourse.{DiscourseOperationState}
use feedback_ingest.Discourse.Operation as DiscourseOperation
use feedback_ingest.Discourse.Operation.{one_day}
use feedback_ingest.Discourse.Polling.{crash_reports, start-Reported}
use feedback_ingest.Effects.Reported.{Reported}
use feedback_ingest.Discourse.Rounds.{ForumRound}
use feedback_ingest.Notifyu.Requests.{
  failure_reports, RequestRound, extract_transform_and_load-RequestRound,
}
use feedback_ingest.Server.Sessions.{
  SessionRound, session-SessionRound, Listens, start_server-Listens,
}
use feedback_ingest.Server.{session, start_server}
use feedback_ingest.Tests.Systems.{platform, body, self, request}
use feedback_ingest.Tests.Documents
use feedback_ingest.Tests.Documents.{reviews, review_data}
use feedback_ingest.Json.Tree.{int, real}
use feedback_ingest.Notifyu.Stored.{Stored, extract_transform_and_load-Stored}

-- A source of each kind that polls.
abbrev pub filepp_self : FileppOperationState
filepp_self = record {
  source_id = pos 1;
  tenant_id = pos 2;
  filepp_info = record { file_path = codes "in.json" };
}

abbrev pub forum_self : DiscourseOperationState
forum_self = record {
  source_id = pos 1;
  tenant_id = pos 2;
  discourse_info = record { topic_id = pos 7 };
}

abbrev pub forum : Url
forum = record {
  scheme = codes "https";
  encoded_host = codes "meta.discourse.org";
  port = none;
  encoded_target = [];
}

abbrev pub web : Platform
web = record (platform null) { parse_uri = λ _. some forum }

start-Reported_example :
    Ensures
      (Reported web (crash_reports web forum_self) (
        Polls web
          (ForumRound web
            (λ url events ending. first_ending web events ≡ some ending)
            (Written web)
            forum_self)
          one_day
          2
          0))
      (DiscourseOperation.start web (json_sink web) forum_self (execute_every web 2))
start-Reported_example =
    start-Reported web forum_self (λ url events ending. first_ending web events ≡ some ending)
      (Written web) (json_sink web) (λ url. http_get-first_ending web url forum refl)
      (write-Written web (tree_library-IsLawful _)) 2

start-PollsFromNow_example :
    Ensures
      (Reported
        (platform null)
        (FileppPolling.crash_reports (platform null) filepp_self)
        (PollsFromNow (platform null) filepp_self (Written (platform null)) 2))
      (FileppOperation.start (platform null) (json_sink _) filepp_self (execute_every _ 2))
start-PollsFromNow_example =
    start-PollsFromNow (platform null) filepp_self (Written (platform null)) (json_sink _)
      (write-Written (platform null) (tree_library-IsLawful _)) 2

extract_transform_and_load-RequestRound_example :
    Ensures
      (Reported
        (platform body)
        (failure_reports (platform body) (Written (platform body)) self)
        (RequestRound (platform body) (Written (platform body)) self request tt))
      (extract_transform_and_load (platform body) (json_sink _) self request tt)
extract_transform_and_load-RequestRound_example =
    extract_transform_and_load-RequestRound (platform body) (Written (platform body)) self
      (json_sink _) (write-Written (platform body) (tree_library-IsLawful _)) request tt

session-SessionRound_example :
    Ensures
      (SessionRound (platform body) (Written (platform body)) tt)
      (session (platform body) (json_sink _) tt)
session-SessionRound_example =
    session-SessionRound (platform body) (Written (platform body)) (json_sink _)
      (write-Written (platform body) (tree_library-IsLawful _)) tt

start_server-Listens_example :
    Ensures (Listens (platform body) 2 4000) (start_server (platform body) (json_sink _) 2 4000)
start_server-Listens_example = start_server-Listens (platform body) (json_sink _) 2 4000

extract_transform_and_load-Stored_example :
    Ensures
      (Reported
        (platform Documents.body)
        (failure_reports (platform Documents.body) (Written _) self)
        (Stored (platform Documents.body) self tt (review_data ∷ [])))
      (extract_transform_and_load (platform Documents.body) (json_sink _) self request tt)
unfolding bytes_eq is_good_secret_token nat_eq
extract_transform_and_load-Stored_example =
    extract_transform_and_load-Stored (platform Documents.body) self (tree_library-IsLawful _)
      request tt Documents.body reviews (codes "12345678") (review_data ∷ []) refl
      (string (codes "12345678"), refl, refl) refl refl
      (
        record {
          country = (string (codes "in"), refl, refl);
          app_version = (string (codes "2"), refl, refl);
          rating = (real 3, refl, refl);
          likes = (int (pos 6), refl, refl);
          text = (string (codes "ok"), refl, refl);
        },
        tt,
      )
