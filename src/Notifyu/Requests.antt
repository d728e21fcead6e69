-- ===== src/Notifyu/Requests.antt =====
-- One request to a source of include/data_source/notifyu/notifyu_operation_state.hpp, from the
-- handler on.
use feedback_ingest.Base.{◌≡◌, refl, Bool, true, false, List, ◌∷◌, Bytes, codes, Exception}
use feedback_ingest.Platform.{Platform}
use feedback_ingest.Schema.{Schema}
use feedback_ingest.Effects.{
  HttpRequest, Command, log, info_ids, Ending, Event, Ensures, lift, ◌>>=◌,
}
use feedback_ingest.Effects.Traces.{Ensures-mono}
use feedback_ingest.Effects.After.{After, Gives, lift-After}
use feedback_ingest.Effects.Reported.{reports, Reported, Reports, try_catch-Reported}
use feedback_ingest.HttpOps.{
  ok_response, forbidden_response, send_ok_response, send_forbidden_response,
}
use feedback_ingest.HttpOps.Sent.{Sent, send_response-Sent, send_response->>}
use feedback_ingest.Sink.{Sink}
use feedback_ingest.Notifyu.{NotifyuOperationState}
use feedback_ingest.Notifyu.Algorithms.{parse_content, is_good_secret_token}
use feedback_ingest.Notifyu.Operation.{
  process, answer_and_load, report_failure, extract_transform_and_load,
}

module _ (P : Platform) (self : NotifyuOperationState) where
  abbrev pub greeting : Command P
  greeting = log (
      info_ids (codes "NotifyU: Processing data for source_id: {}, tenant_id: {}") self.source_id
        self.tenant_id)

module _ (P : Platform)
    (W : List (Schema P.json.Real) → List (Event P) → Ending (Unit {0}) → Type 0)
    (self : NotifyuOperationState) where
  abbrev pub failure_reports : Exception → List (Event P)
  failure_reports = reports P (codes "notifyu request handler failed") self.source_id self.tenant_id

  -- With the right token 200, and then `W` says what is done with the schemas; else 403 and nothing.
  abbrev pub Answered :
      P.Socket → Bool → List (Schema P.json.Real) → List (Event P) → Ending (Unit {0}) → Type 0
  Answered socket true schemas = Sent P socket ok_response (W schemas)
  Answered socket false schemas = Sent P socket forbidden_response (Gives tt)

  -- The body is read before anything is answered.
  abbrev pub RequestRound : HttpRequest → P.Socket → List (Event P) → Ending (Unit {0}) → Type 0
  RequestRound req socket events ending =
      (more : List (Event P)) × (events ≡ (greeting P self, tt) ∷ more)
      × After
          (λ (content : Bytes × List (Schema P.json.Real)).
            Answered socket (is_good_secret_token content.0) content.1)
          (parse_content P.json self.source_id self.tenant_id req.body) more ending

  module _ (sink : Sink P)
      (writes : (schemas : List (Schema P.json.Real))
        → Ensures (W schemas) (sink.write schemas)) where
    report_failure-Reports : Reports P failure_reports (report_failure P sink self)
    unfolding report_failure
    report_failure-Reports e = λ _ _ _ _. (refl, refl)

    answer_and_load-Answered :
        (socket : P.Socket) (good : Bool) (schemas : List (Schema P.json.Real))
        → Ensures (Answered socket good schemas) (answer_and_load P sink self good socket schemas)
    unfolding answer_and_load send_ok_response send_forbidden_response
    answer_and_load-Answered socket true schemas =
        send_response->> P socket ok_response (W schemas) (sink.write schemas) (writes schemas)
    answer_and_load-Answered socket false schemas = send_response-Sent P socket forbidden_response

    process-RequestRound :
        (req : HttpRequest) (socket : P.Socket)
        → Ensures (RequestRound req socket) (process P sink self req socket)
    unfolding process
    process-RequestRound req socket = λ _.
        let parsed = parse_content P.json self.source_id self.tenant_id req.body in
        Ensures-mono
          (lift parsed >>= λ content.
            answer_and_load P sink self (is_good_secret_token content.0) socket content.1)
          (After (λ content. Answered socket (is_good_secret_token content.0) content.1) parsed) _
          (λ more ending h. (more, refl, h))
          (lift-After _ parsed _
            (λ content. answer_and_load-Answered socket (is_good_secret_token content.0) content.1))

    -- If the sink does with schemas what `W` says, the handler reads the body of the request: with
    -- the right token it answers 200 and gives the sink exactly the schemas that the body is read
    -- as, with another token it answers 403 and the sink is not called. An exception, that of a
    -- body that cannot be read or of an answer that cannot be sent included, is logged, and ends
    -- the handler without a further answer.
    pub extract_transform_and_load-RequestRound :
        (req : HttpRequest) (socket : P.Socket)
        → Ensures
            (Reported P failure_reports (RequestRound req socket))
            (extract_transform_and_load P sink self req socket)
    unfolding extract_transform_and_load
    extract_transform_and_load-RequestRound req socket =
        try_catch-Reported P failure_reports (report_failure P sink self) report_failure-Reports
          (RequestRound req socket) (process P sink self req socket)
          (process-RequestRound req socket)
