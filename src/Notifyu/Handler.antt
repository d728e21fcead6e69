-- ===== src/Notifyu/Handler.antt =====
-- What the request handler of include/data_source/notifyu/notifyu_operation_state.hpp answers, and
-- when it loads.
use feedback_ingest.Base.{
  ◌≡◌, refl, ap, Bool, true, false, List, [], ◌∷◌, Bytes, Outcome, ok, throws, undefined, Exception,
  if◌then◌else◌,
}
use feedback_ingest.Platform.{Platform}
use feedback_ingest.Schema.{Schema}
use feedback_ingest.Effects.{
  HttpRequest, HttpResponse, Ending, returned, raised, crashed, unfinished, Event, Ensures, ◌>>=◌,
  lift, try_catch,
}
use feedback_ingest.Effects.Traces.{
  Ensures-mono, Ensures-try_catch, Handled, NeverRaises, NeverRaises-try_catch, replies,
  replies-append, opened,
}
use feedback_ingest.HttpOps.{
  forbidden_response, ok_response, send_response, send_forbidden_response, send_ok_response,
}
use feedback_ingest.Sink.{Sink}
use feedback_ingest.Sink.Silence.{IsSilent}
use feedback_ingest.Notifyu.{NotifyuOperationState}
use feedback_ingest.Notifyu.Algorithms.{parse_content, is_good_secret_token}
use feedback_ingest.Notifyu.Operation.{
  process, answer_and_load, report_failure, extract_transform_and_load,
}

module _ (P : Platform) (sink : Sink P) (self : NotifyuOperationState) where
  report_failure-NeverRaises : (e : Exception) → NeverRaises (report_failure P sink self e)
  unfolding report_failure
  report_failure-NeverRaises e = λ _ _ _ _. tt

  -- No exception leaves the handler, whatever the request, the sink and the answers of the system:
  -- what `rest_server::register_route` asks of a handler.
  pub extract_transform_and_load-NeverRaises :
      (req : HttpRequest) (socket : P.Socket)
      → NeverRaises (extract_transform_and_load P sink self req socket)
  unfolding extract_transform_and_load
  extract_transform_and_load-NeverRaises req socket =
      NeverRaises-try_catch (process P sink self req socket) (report_failure P sink self)
        report_failure-NeverRaises

  -- What a request is answered, by what its body says.
  abbrev pub expected_replies : Outcome (Bytes × List (Schema P.json.Real)) → List HttpResponse
  expected_replies (ok (token, schemas)) =
      if is_good_secret_token token then ok_response ∷ [] else forbidden_response ∷ []
  expected_replies (throws e) = []
  expected_replies undefined = []

  send_response-replies :
      (socket : P.Socket) (response : HttpResponse)
      → Ensures
          (λ events ending. replies events ≡ response ∷ [])
          (try_catch (send_response P socket response) (report_failure P sink self))
  unfolding send_response report_failure
  send_response-replies socket response = elim [
    | ok tt ↦ refl
    | throws e ↦ λ _ _ _ _. refl
    | undefined ↦ refl
  ]

  quiet_write :
      IsSilent P sink
      → (schemas : List (Schema P.json.Real))
      → Ensures
          (λ events ending. replies events ≡ [])
          (try_catch (sink.write schemas) (report_failure P sink self))
  unfolding report_failure
  quiet_write S schemas =
      Ensures-try_catch (sink.write schemas) (report_failure P sink self)
        (λ events ending. replies events ≡ [])
        (Ensures-mono (sink.write schemas) (λ events ending. replies events ≡ []) _ handled
          (S.silent schemas))
    where
      handled :
          (events : List (Event P)) (ending : Ending (Unit {0}))
          → replies events ≡ []
          → Handled
              (λ events ending. replies events ≡ [])
              (report_failure P sink self)
              events
              ending
      handled events (returned a) q = q
      handled events (raised e) q = λ _ _ _ _. rw (replies-append, q) refl
      handled events crashed q = q
      handled events unfinished q = q

  answer_and_load-replies :
      IsSilent P sink
      → (good : Bool) (socket : P.Socket) (schemas : List (Schema P.json.Real))
      → Ensures
          (λ events ending.
            replies events ≡ (if good then ok_response ∷ [] else forbidden_response ∷ []))
          (try_catch (answer_and_load P sink self good socket schemas) (report_failure P sink self))
  unfolding answer_and_load send_forbidden_response send_ok_response send_response report_failure
  answer_and_load-replies S false socket schemas = send_response-replies socket forbidden_response
  answer_and_load-replies S true socket schemas = elim [
    | ok tt ↦
        Ensures-mono (try_catch (sink.write schemas) (report_failure P sink self))
          (λ events ending. replies events ≡ [])
          (λ events ending. ok_response ∷ replies events ≡ ok_response ∷ [])
          (λ events ending. ap (λ (rs : List HttpResponse). ok_response ∷ rs))
          (quiet_write S schemas)
    | throws e ↦ λ _ _ _ _. refl
    | undefined ↦ refl
  ]

  parsed_replies :
      IsSilent P sink
      → (socket : P.Socket) (content : Outcome (Bytes × List (Schema P.json.Real)))
      → Ensures
          (λ events ending. replies events ≡ expected_replies content)
          (try_catch
            (do
              (token, schemas) ← lift content
              answer_and_load P sink self (is_good_secret_token token) socket schemas)
            (report_failure P sink self))
  unfolding report_failure
  parsed_replies S socket (ok (token, schemas)) =
      answer_and_load-replies S (is_good_secret_token token) socket schemas
  parsed_replies S socket (throws e) = λ _ _ _ _. refl
  parsed_replies S socket undefined = refl

  -- With a sink that answers nothing, the handler answers a request with the right token once with
  -- 200, one with another token once with 403, and one whose body does not parse not at all.
  pub extract_transform_and_load-replies :
      IsSilent P sink
      → (req : HttpRequest) (socket : P.Socket)
      → Ensures
          (λ events ending.
            replies events
            ≡ expected_replies (parse_content P.json self.source_id self.tenant_id req.body))
          (extract_transform_and_load P sink self req socket)
  unfolding extract_transform_and_load process
  extract_transform_and_load-replies S req socket =
      λ _. parsed_replies S socket (parse_content P.json self.source_id self.tenant_id req.body)

  refused_opened :
      (socket : P.Socket)
      → Ensures
          (λ events ending. opened events ≡ [])
          (try_catch (send_forbidden_response P socket) (report_failure P sink self))
  unfolding send_forbidden_response send_response report_failure
  refused_opened socket = elim [ ok tt ↦ refl | throws e ↦ λ _ _ _ _. refl | undefined ↦ refl ]

  parsed_opened :
      (socket : P.Socket) (content : Outcome (Bytes × List (Schema P.json.Real)))
      → ((token : Bytes) (schemas : List (Schema P.json.Real))
          → content ≡ ok (token, schemas)
          → is_good_secret_token token ≡ false)
      → Ensures
          (λ events ending. opened events ≡ [])
          (try_catch
            (do
              (token, schemas) ← lift content
              answer_and_load P sink self (is_good_secret_token token) socket schemas)
            (report_failure P sink self))
  unfolding report_failure answer_and_load
  parsed_opened socket (ok (token, schemas)) h = rw (h token schemas refl) (refused_opened socket)
  parsed_opened socket (throws e) h = λ _ _ _ _. refl
  parsed_opened socket undefined h = refl

  -- Whatever the sink does, a request opens no file unless its body parses with the right token.
  pub extract_transform_and_load-opened :
      (req : HttpRequest) (socket : P.Socket)
      → ((token : Bytes) (schemas : List (Schema P.json.Real))
          → parse_content P.json self.source_id self.tenant_id req.body ≡ ok (token, schemas)
          → is_good_secret_token token ≡ false)
      → Ensures
          (λ events ending. opened events ≡ [])
          (extract_transform_and_load P sink self req socket)
  unfolding extract_transform_and_load process
  extract_transform_and_load-opened req socket h =
      λ _. parsed_opened socket (parse_content P.json self.source_id self.tenant_id req.body) h
