-- ===== src/Notifyu/Stored.antt =====
-- From a posted body to the file: include/data_source/notifyu with the sink of
-- include/sink/json_sink.hpp.
use feedback_ingest.Base.{◌≡◌, true, Bool, some, List, ◌∷◌, map, Bytes, codes, Outcome, AllPairs}
use mathlib.Core.Path.{subst}
use feedback_ingest.Json.{IsLawful}
use feedback_ingest.Json.Members.{HasMember}
use feedback_ingest.Platform.{Platform}
use feedback_ingest.Schema.{Schema}
use feedback_ingest.Effects.{HttpRequest, Ending, Event, Ensures}
use feedback_ingest.Effects.After.{After}
use feedback_ingest.Effects.Reported.{Reported}
use feedback_ingest.HttpOps.{ok_response}
use feedback_ingest.HttpOps.Sent.{Sent}
use feedback_ingest.Sink.{json_sink}
use feedback_ingest.Sink.Files.{Written, write-Written}
use feedback_ingest.Notifyu.{NotifyuOperationState}
use feedback_ingest.Notifyu.Algorithms.{is_good_secret_token}
use feedback_ingest.Notifyu.Operation.{extract_transform_and_load}
use feedback_ingest.Notifyu.Requests.{
  failure_reports, greeting, Answered, extract_transform_and_load-RequestRound,
}
use feedback_ingest.Notifyu.Reviews.{ReviewData, ShowsReview, schema_of, parse_content-ShowsReview}

module _ (P : Platform) (self : NotifyuOperationState) where
  open P use {json}

  -- After the first line of the log, it goes on as `R` says.
  abbrev pub Greeted :
      (List (Event P) → Ending (Unit {0}) → Type 0) → List (Event P) → Ending (Unit {0}) → Type 0
  Greeted R events ending =
      (more : List (Event P)) × (events ≡ (greeting P self, tt) ∷ more) × R more ending

  -- The answer is 200, and the reviews are written with the ids of the source and the tenant.
  abbrev pub Stored :
      P.Socket → List (ReviewData json) → List (Event P) → Ending (Unit {0}) → Type 0
  Stored socket reviews = Greeted (
      Sent P socket ok_response
        (Written P (map (schema_of json self.source_id self.tenant_id) reviews)))

  -- A posted body that shows some reviews under the right token is answered once with 200, and then one
  -- file is written with the text of a JSON value that, read back, is exactly these reviews in
  -- their order with the ids of the source and the tenant. An answer that cannot be sent, a
  -- directory that cannot be made or a value that cannot be printed is logged instead.
  pub extract_transform_and_load-Stored :
      IsLawful json
      → (req : HttpRequest) (socket : P.Socket) (j stream : json.Json) (token : Bytes)
        (reviews : List (ReviewData json))
      → json.parse req.body ≡ some j
      → HasMember json json.get_string j (codes "secret_token") token
      → is_good_secret_token token ≡ true
      → json.find j (codes "review_stream") ≡ some stream
      → AllPairs (ShowsReview json) (json.elements stream) reviews
      → Ensures
          (Reported P (failure_reports P (Written P) self) (Stored socket reviews))
          (extract_transform_and_load P (json_sink P) self req socket)
  extract_transform_and_load-Stored L req socket j stream token reviews parsed has good found
        shows =
      let Ends : (List (Event P) → Ending (Unit {0}) → Type 0) → Type 0 = λ R.
        Ensures (Reported P (failure_reports P (Written P) self) (Greeted R))
          (extract_transform_and_load P (json_sink P) self req socket) in
      let answered : Bytes × List (Schema json.Real) → List (Event P) → Ending (Unit {0}) → Type 0 =
        λ content. Answered P (Written P) self socket (is_good_secret_token content.0) content.1 in
      let schemas = map (schema_of json self.source_id self.tenant_id) reviews in
      subst (λ (b : Bool). Ends (Answered P (Written P) self socket b schemas)) good
        (subst (λ (o : Outcome (Bytes × List (Schema json.Real))). Ends (After answered o))
          (parse_content-ShowsReview json L self.source_id self.tenant_id req.body j stream token
            reviews parsed has found shows)
          (extract_transform_and_load-RequestRound P (Written P) self (json_sink P)
            (write-Written P L) req socket))
