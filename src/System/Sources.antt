-- ===== src/System/Sources.antt =====
-- The operation states of include/data_source keep the duties.
use feedback_ingest.Base.{ℕ, refl, inl, inr, Bool, true, false, List, All}
use feedback_ingest.Platform.{Platform}
use feedback_ingest.Schema.{Schema}
use feedback_ingest.Schema.Stamp.{IsStamped}
use feedback_ingest.FileOps.{content_of}
use feedback_ingest.Effects.{HttpRequest}
use feedback_ingest.Effects.Contract.{Keeps, Keeps-lift, Keeps-lift->>=, Keeps->>=, Keeps-try_catch}
use feedback_ingest.HttpOps.{http_get, send_ok_response}
use feedback_ingest.Sink.{json_sink, write}
use feedback_ingest.Server.{rest_server}
use feedback_ingest.Timer.{awaitable, execute_every, execute}
use feedback_ingest.Discourse.{DiscourseOperationState}
use feedback_ingest.Filepp.{FileppOperationState}
use feedback_ingest.Notifyu.{NotifyuOperationState}
use feedback_ingest.Discourse.Algorithms.{get_post_ids, raw_posts_to_schema}
use feedback_ingest.Filepp.Algorithms.{to_schema}
use feedback_ingest.Notifyu.Algorithms.{parse_content, is_good_secret_token}
use feedback_ingest.Discourse.Posts.{raw_posts_to_schema-IsStamped}
use feedback_ingest.Filepp.Conversations.{to_schema-IsStamped}
use feedback_ingest.Notifyu.Reviews.{parse_content-IsStamped}
use feedback_ingest.Discourse.Operation as DiscourseOperation
use feedback_ingest.Filepp.Operation as FileppOperation
use feedback_ingest.Notifyu.Operation as NotifyuOperation
use feedback_ingest.Application.{AnyOperationState, model, start}
use feedback_ingest.System.Duties.{duties}
use feedback_ingest.System.Storing.{KeepsDuties, write-KeepsDuties}
use feedback_ingest.System.Talking.{
  http_get-Quiet, send_ok_response-KeepsDuties, send_forbidden_response-KeepsDuties,
  execute-KeepsDuties,
}

module _ (P : Platform) (S : AnyOperationState → Type 0) where
  open P use {Time, Socket}

  module _ (self : DiscourseOperationState) (there : S (AnyOperationState.discourse self)) where
    fetch_posts_between-Keeps :
        (begin end : Time)
        → Keeps (duties P S) (All (IsStamped self.source_id self.tenant_id)) (
            DiscourseOperation.fetch_posts_between P self.source_id self.tenant_id
              self.discourse_info.topic_id begin end)
    unfolding DiscourseOperation.fetch_posts_between
    fetch_posts_between-Keeps begin end =
        Keeps->>= (duties P S) (λ _. Unit) _ (http_get P _) _
          (http_get-Quiet P S _ (self, there, inl (begin, end, refl)))
          λ found _.
            Keeps-lift->>= (duties P S) _ (get_post_ids P.json found self.discourse_info.topic_id) _
              λ ids _.
                Keeps->>= (duties P S) (λ _. Unit) _ (http_get P _) _
                  (http_get-Quiet P S _ (self, there, inr (ids, refl)))
                  λ posts _.
                    Keeps-lift (duties P S) _
                      (raw_posts_to_schema P.json posts self.source_id self.tenant_id)
                      (raw_posts_to_schema-IsStamped P.json self.source_id self.tenant_id posts)

    discourse_round-KeepsDuties :
        (prev_time : Time)
        → KeepsDuties P S
            (DiscourseOperation.extract_transform_and_load P (json_sink P) self prev_time)
    unfolding DiscourseOperation.extract_transform_and_load
    discourse_round-KeepsDuties prev_time = (
      tt,
      λ _ _. (
        tt,
        λ end _.
            Keeps->>= (duties P S) (All (IsStamped self.source_id self.tenant_id)) (λ _. Unit)
              (DiscourseOperation.fetch_posts_between P self.source_id self.tenant_id
                self.discourse_info.topic_id prev_time end)
              (write P) (fetch_posts_between-Keeps prev_time end)
              (write-KeepsDuties P S (AnyOperationState.discourse self) there),
      ),
    )

    discourse_start-KeepsDuties :
        (n : ℕ)
        → KeepsDuties P S (DiscourseOperation.start P (json_sink P) self (execute_every P n))
    unfolding DiscourseOperation.start DiscourseOperation.report_crash
    discourse_start-KeepsDuties n =
        Keeps-try_catch (duties P S) (λ _. Unit)
          (execute P n P.year_2023 DiscourseOperation.one_day
            (awaitable (DiscourseOperation.extract_transform_and_load P (json_sink P) self)) _)
          (DiscourseOperation.report_crash P (json_sink P) self)
          (execute-KeepsDuties P S DiscourseOperation.one_day
            (awaitable (DiscourseOperation.extract_transform_and_load P (json_sink P) self))
            discourse_round-KeepsDuties n P.year_2023 _)
          (λ e. (tt, λ _ _. (tt, λ _ _. (tt, λ _ _. (tt, λ _ _. tt)))))

  module _ (self : FileppOperationState) (there : S (AnyOperationState.filepp self)) where
    filepp_round-KeepsDuties :
        KeepsDuties P S (FileppOperation.extract_transform_and_load P (json_sink P) self)
    unfolding FileppOperation.extract_transform_and_load
    filepp_round-KeepsDuties = (
      tt,
      λ _ _. (
        (self, there, refl),
        λ found _.
            Keeps-lift->>= (duties P S) (λ _. Unit)
              (to_schema P.json self.source_id self.tenant_id (content_of found)) (write P)
              (λ ss e.
                write-KeepsDuties P S (AnyOperationState.filepp self) there ss (
                  to_schema-IsStamped P.json self.source_id self.tenant_id (content_of found) ss
                    e)),
      ),
    )

    filepp_start-KeepsDuties :
        (n : ℕ) → KeepsDuties P S (FileppOperation.start P (json_sink P) self (execute_every P n))
    unfolding FileppOperation.start FileppOperation.report_crash
    filepp_start-KeepsDuties n = (
      tt,
      λ start_time _.
          Keeps-try_catch (duties P S) (λ _. Unit)
            (execute P n start_time FileppOperation.half_hour
              (awaitable (λ _. FileppOperation.extract_transform_and_load P (json_sink P) self)) _)
            (FileppOperation.report_crash P (json_sink P) self)
            (execute-KeepsDuties P S FileppOperation.half_hour
              (awaitable (λ _. FileppOperation.extract_transform_and_load P (json_sink P) self))
              (λ _. filepp_round-KeepsDuties) n start_time _)
            (λ e. (tt, λ _ _. (tt, λ _ _. (tt, λ _ _. (tt, λ _ _. tt))))),
    )

  module _ (self : NotifyuOperationState) (there : S (AnyOperationState.notifyu self)) where
    answer_and_load-KeepsDuties :
        (good : Bool) (socket : Socket) (ss : List (Schema P.json.Real))
        → All (IsStamped self.source_id self.tenant_id) ss
        → KeepsDuties P S (NotifyuOperation.answer_and_load P (json_sink P) self good socket ss)
    unfolding NotifyuOperation.answer_and_load
    answer_and_load-KeepsDuties false socket ss stamped =
        send_forbidden_response-KeepsDuties P S socket
    answer_and_load-KeepsDuties true socket ss stamped =
        Keeps->>= (duties P S) (λ _. Unit) (λ _. Unit) (send_ok_response P socket) _
          (send_ok_response-KeepsDuties P S socket)
          (λ _ _. write-KeepsDuties P S (AnyOperationState.notifyu self) there ss stamped)

    process-KeepsDuties :
        (req : HttpRequest) (socket : Socket)
        → KeepsDuties P S (NotifyuOperation.process P (json_sink P) self req socket)
    unfolding NotifyuOperation.process
    process-KeepsDuties req socket = (
      tt,
      λ _ _.
          Keeps-lift->>= (duties P S) (λ _. Unit)
            (parse_content P.json self.source_id self.tenant_id req.body) _
            (λ parsed e.
              answer_and_load-KeepsDuties (is_good_secret_token parsed.0) socket parsed.1 (
                parse_content-IsStamped P.json self.source_id self.tenant_id req.body parsed.0
                  parsed.1 e)),
    )

    pub handler-KeepsDuties :
        (req : HttpRequest) (socket : Socket)
        → KeepsDuties P S
            (NotifyuOperation.extract_transform_and_load P (json_sink P) self req socket)
    unfolding NotifyuOperation.extract_transform_and_load NotifyuOperation.report_failure
    handler-KeepsDuties req socket =
        Keeps-try_catch (duties P S) (λ _. Unit)
          (NotifyuOperation.process P (json_sink P) self req socket)
          (NotifyuOperation.report_failure P (json_sink P) self) (process-KeepsDuties req socket)
          (λ e. (tt, λ _ _. (tt, λ _ _. (tt, λ _ _. (tt, λ _ _. tt)))))

  -- The coroutine of an operation state keeps the duties: what it writes goes to files of its own
  -- source and tenant, and what it registers is its own handler under its own route.
  pub start-KeepsDuties :
      (n port : ℕ) (o : AnyOperationState)
      → S o
      → KeepsDuties P S
          (start P (json_sink P) (execute_every P n) (rest_server P (json_sink P) n port) o)
  unfolding start model NotifyuOperation.start
  start-KeepsDuties n port (AnyOperationState.discourse self) there =
      discourse_start-KeepsDuties self there n
  start-KeepsDuties n port (AnyOperationState.filepp self) there =
      filepp_start-KeepsDuties self there n
  start-KeepsDuties n port (AnyOperationState.notifyu self) there = ((there, refl), λ _ _. tt)
