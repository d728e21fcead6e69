-- ===== src/Tests/Systems.antt =====
-- Runs of the coroutines: include/sink, include/timer, include/rest_server.hpp, and the sources.
use feedback_ingest.Base.{
  ℕ, ◌≡◌, refl, arith, false, some, none, List, [], ◌∷◌, Bytes, codes, ok, bytes_eq, nat_eq,
  ok-injective, ap, sym, ◌∙◌,
}
use feedback_ingest.Base.Int.{pos}
use feedback_ingest.Json.Tree.{
  Value, null, string, object, end, member, tree_library, tree_library-IsLawful,
}
use feedback_ingest.Platform.{Platform}
use feedback_ingest.Schema.{Schema, review}
use feedback_ingest.Registry.{Key}
use feedback_ingest.Registry.Invariant.{empty-IsValid}
use feedback_ingest.DataSource.{DataLoadEntry}
use feedback_ingest.Effects.{HttpRequest, Ensures}
use feedback_ingest.Effects.Traces.{NeverRaises, replies, opened}
use feedback_ingest.Sink.{json_sink, write}
use feedback_ingest.Sink.Files.{Written, write-Written}
use feedback_ingest.Sink.Silence.{json_sink-IsSilent}
use feedback_ingest.Timer.{execute_every}
use feedback_ingest.Notifyu.{NotifyuInfo, NotifyuOperationState}
use feedback_ingest.Notifyu.Algorithms.{parse_content, is_good_secret_token}
use feedback_ingest.Notifyu.Operation.{extract_transform_and_load}
use feedback_ingest.Notifyu.Handler.{
  expected_replies, extract_transform_and_load-NeverRaises, extract_transform_and_load-replies,
  extract_transform_and_load-opened,
}
use feedback_ingest.Server.{RestServer, rest_server, find_handler, handle_request}
use feedback_ingest.Server.Routes.{with_routes, route_replies, handle_request-replies}
use feedback_ingest.Application.{
  AnyInfo, AnyOperationState, ApplicationState, start, load_into_application,
}
use feedback_ingest.Application.Loading.{Loaded, load_into_application_lem}
use feedback_ingest.Application.Starts.{start-NeverRaises}
use feedback_ingest.Main.{make_application_state, make_notifyu_state}

-- A system on which every text parses as `j`.
abbrev pub platform : Value → Platform
platform j = record {
  json = tree_library (λ _. some j);
  parse_uri = λ _. none;
  beast_version = codes "Boost.Beast/347";
  Time = ℕ;
  date = λ _. codes "2023-01-01";
  count = pos;
  year_2023 = 0;
  Endpoints = Unit {0};
  Socket = Unit {0};
}

abbrev pub body : Value
body = object (member (codes "secret_token") (string (codes "12345678")) end)

abbrev forged : Value
forged = object (member (codes "secret_token") (string (codes "1234")) end)

abbrev schema : Schema ℕ
schema = record {
  source_id = pos 1;
  tenant_id = pos 2;
  entry = record {
    metadata = record { location = none; app_version = none; rating = none; impressions = none };
    feedback = review (codes "ok");
  };
}

abbrev pub self : NotifyuOperationState
self = record {
  source_id = pos 1;
  tenant_id = pos 2;
  notifyu_info = record { listening_route = codes "/r" };
}

abbrev pub request : HttpRequest
request = record {
  method = codes "POST";
  target = codes "/r";
  host = [];
  user_agent = [];
  body = codes "{}";
}

write-Written_example :
    Ensures (Written (platform null) (schema ∷ [])) (write (platform null) (schema ∷ []))
write-Written_example = write-Written (platform null) (tree_library-IsLawful _) (schema ∷ [])

extract_transform_and_load-NeverRaises_example :
    NeverRaises (extract_transform_and_load (platform body) (json_sink _) self request tt)
extract_transform_and_load-NeverRaises_example =
    extract_transform_and_load-NeverRaises (platform body) (json_sink _) self request tt

extract_transform_and_load-replies_example :
    Ensures
      (λ events ending.
        replies events
        ≡ expected_replies
            (platform body)
            (json_sink _)
            self
            (parse_content (platform body).json (pos 1) (pos 2) (codes "{}")))
      (extract_transform_and_load (platform body) (json_sink _) self request tt)
extract_transform_and_load-replies_example =
    extract_transform_and_load-replies (platform body) (json_sink _) self (json_sink-IsSilent _)
      request tt

forged_content :
    parse_content (platform forged).json (pos 1) (pos 2) (codes "{}") ≡ ok (codes "1234", [])
unfolding parse_content bytes_eq
forged_content = refl

forged_is_refused : is_good_secret_token (codes "1234") ≡ false
unfolding is_good_secret_token bytes_eq nat_eq
forged_is_refused = refl

refused :
    (token : Bytes) (schemas : List (Schema ℕ))
    → parse_content (platform forged).json (pos 1) (pos 2) (codes "{}") ≡ ok (token, schemas)
    → is_good_secret_token token ≡ false
refused token schemas e =
    ap (λ (t : Bytes × List (Schema ℕ)). is_good_secret_token t.0)
      (ok-injective (sym e ∙ forged_content))
    ∙ forged_is_refused

extract_transform_and_load-opened_example :
    Ensures
      (λ events ending. opened events ≡ [])
      (extract_transform_and_load (platform forged) (json_sink _) self request tt)
extract_transform_and_load-opened_example =
    extract_transform_and_load-opened (platform forged) (json_sink _) self request tt refused

-- A server of one route.
abbrev server : RestServer
server = record { port = 4000; route_handlers = (codes "/r", self) ∷ [] }

handle_request-replies_example :
    Ensures
      (λ events ending.
        replies events
        ≡ route_replies (platform body) (json_sink _) (find_handler (codes "/r") server) request)
      (with_routes (handle_request (platform body) (json_sink _) request tt) server)
handle_request-replies_example =
    handle_request-replies (platform body) (json_sink _) (json_sink-IsSilent _) request tt server

start-NeverRaises_example : NeverRaises (
    start
      (platform body)
      (json_sink _)
      (execute_every _ 2)
      (rest_server _ (json_sink _) 2 4000)
      (AnyOperationState.notifyu self))
start-NeverRaises_example =
    start-NeverRaises (platform body) (json_sink _) (execute_every _ 2)
      (rest_server _ (json_sink _) 2 4000) (AnyOperationState.notifyu self)

-- The entry of one source with two tenants.
abbrev entries : List (DataLoadEntry NotifyuInfo)
entries =
    record {
      source_info_with_header = record {
        name = codes "n";
        source_info = record { listening_route = codes "/r" };
      };
      subscribing_tenants = pos 0 ∷ pos 1 ∷ [];
    }
    ∷ []

load_into_application_lem_example :
    (ids : List Key) × (state' : ApplicationState) × (load_into_application AnyInfo.notifyu
        make_notifyu_state entries make_application_state
      ≡ ok state')
    × Loaded AnyInfo.notifyu make_notifyu_state entries make_application_state ids state'
load_into_application_lem_example =
    load_into_application_lem AnyInfo.notifyu make_notifyu_state entries make_application_state
      empty-IsValid (omega arith) empty-IsValid (omega arith)
