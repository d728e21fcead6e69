-- ===== src/Tests/Pollings.antt =====
-- A run of the polling of include/data_source/discourse/discourse_operation_state.hpp.
use feedback_ingest.Base.{
  true, bytes_eq, nat_eq, ◌≤◌, arith, some, List, [], ◌∷◌, ◌++◌, ok, throws, system_error, refl,
  ◌≡◌, false,
}
use feedback_ingest.Json.Tree.{object, end, tree_library-IsLawful, tree_library}
use feedback_ingest.Platform.{Platform}
use feedback_ingest.Effects.{
  Command, Event, returned, now, sleep, resolve, connect, handshake, write_request, read_response,
  received,
}
use feedback_ingest.Effects.Reported.{Reported}
use feedback_ingest.Effects.Runs.{Run, returns, ◌▸◌}
use feedback_ingest.HttpOps.{
  service_of, make_http_get_header, http_get, parsed, get_over, make_get_request_to_socket,
  read_or_wait, body_in_time,
}
use feedback_ingest.HttpOps.Fetch.{first_ending, http_get-first_ending}
use feedback_ingest.Sink.{json_sink, write}
use feedback_ingest.Sink.Files.{Written, write-Written}
use feedback_ingest.Timer.{execute_every, execute, rounds}
use feedback_ingest.Discourse.Operation.{
  one_day, start, extract_transform_and_load, fetch_posts_between, report_crash,
}
use feedback_ingest.Discourse.Algorithms.{get_post_ids, raw_posts_to_schema}
use feedback_ingest.Discourse.Polling.{crash_reports}
use feedback_ingest.Discourse.Rounds.{greeting}
use feedback_ingest.Discourse.Spans.{OrderedRounds, start-OrderedRounds}
use feedback_ingest.Tests.Requests.{forum, forum_self, web}

abbrev quiet_web : Platform
quiet_web = record web { json = tree_library (λ _. some (object end)) }

abbrev resolves : Command quiet_web
resolves = resolve forum.encoded_host (service_of forum)

-- The exchange of one request.
abbrev exchange : List (Event quiet_web)
exchange =
    (resolves, ok tt)
    ∷ (connect tt true, ok tt)
    ∷ (handshake tt, ok tt)
    ∷ (write_request tt (make_http_get_header quiet_web.beast_version forum), ok tt)
    ∷ (read_response tt, received [] false)
    ∷ []

abbrev greets : Event quiet_web
greets = (greeting quiet_web forum_self, tt)

-- The first round finds no posts, the second does not find the host.
abbrev two_rounds : List (Event quiet_web)
two_rounds =
    greets
    ∷ (now, 3)
    ∷ (exchange
        ++ (exchange
            ++ ((now, 5)
                ∷ (sleep one_day, tt)
                ∷ greets
                ∷ (now, 7)
                ∷ (resolves, throws system_error)
                ∷ crash_reports quiet_web forum_self system_error)))

polled : Run (start quiet_web (json_sink _) forum_self (execute_every _ 2)) two_rounds (returned tt)
unfolding start execute rounds extract_transform_and_load fetch_posts_between report_crash http_get
    parsed get_over make_get_request_to_socket read_or_wait body_in_time bytes_eq nat_eq
    get_post_ids raw_posts_to_schema write
polled = _ ▸ _ ▸ _ ▸ _ ▸ _ ▸ _ ▸ _ ▸ _ ▸ _ ▸ _ ▸ _ ▸ _ ▸ _ ▸ _ ▸ _ ▸ _ ▸ _ ▸ _ ▸ _ ▸ _ ▸ _ ▸ returns

start-OrderedRounds_example :
    Reported quiet_web
      (crash_reports quiet_web forum_self)
      (OrderedRounds quiet_web
        (λ url events ending. first_ending quiet_web events ≡ some ending)
        (Written quiet_web)
        forum_self
        one_day
        (λ t u. t ≤ u)
        2
        0)
      two_rounds
      (returned tt)
start-OrderedRounds_example =
    start-OrderedRounds quiet_web (λ url events ending. first_ending quiet_web events ≡ some ending)
      (Written quiet_web) forum_self (λ t u. t ≤ u) (λ t. omega arith) (λ t u v h k. omega arith)
      (json_sink quiet_web) (λ url. http_get-first_ending quiet_web url forum refl)
      (write-Written quiet_web (tree_library-IsLawful _)) 2 polled
      (omega arith, (omega arith, (omega arith, tt)))
