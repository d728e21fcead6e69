-- ===== src/Application/Starts.antt =====
-- How the coroutines that include/data_source spawns end.
use feedback_ingest.Base.{Exception}
use feedback_ingest.Platform.{Platform}
use feedback_ingest.Effects.Traces.{NeverRaises, NeverRaises-try_catch}
use feedback_ingest.Concepts.{RestServerConcept}
use feedback_ingest.Sink.{Sink}
use feedback_ingest.Timer.{Timer}
use feedback_ingest.Application.{AnyOperationState, model, start}
use feedback_ingest.Discourse.{DiscourseOperationState}
use feedback_ingest.Filepp.{FileppOperationState}
use feedback_ingest.Notifyu.{NotifyuOperationState}
use feedback_ingest.Discourse.Operation as DiscourseOperation
use feedback_ingest.Filepp.Operation as FileppOperation
use feedback_ingest.Notifyu.Operation as NotifyuOperation

module _ (P : Platform) (sink : Sink P) (timer : Timer P)
    (server : RestServerConcept P NotifyuOperationState) where
  discourse_report :
      (self : DiscourseOperationState) (e : Exception)
      → NeverRaises (DiscourseOperation.report_crash P sink self e)
  unfolding DiscourseOperation.report_crash
  discourse_report self e = λ _ _ _ _. tt

  filepp_report :
      (self : FileppOperationState) (e : Exception)
      → NeverRaises (FileppOperation.report_crash P sink self e)
  unfolding FileppOperation.report_crash
  filepp_report self e = λ _ _ _ _. tt

  notifyu_report :
      (self : NotifyuOperationState) (e : Exception)
      → NeverRaises (NotifyuOperation.report_crash P sink self e)
  unfolding NotifyuOperation.report_crash
  notifyu_report self e = λ _ _ _ _. tt

  -- No exception leaves the coroutine of an operation state, whatever its source, the sink, the
  -- timer, the server and the answers of the system: a failing source stops itself and no other.
  pub start-NeverRaises :
      (state : AnyOperationState) → NeverRaises (start P sink timer server state)
  unfolding start model DiscourseOperation.start FileppOperation.start NotifyuOperation.start
  start-NeverRaises (AnyOperationState.discourse self) =
      NeverRaises-try_catch _ (DiscourseOperation.report_crash P sink self) (discourse_report self)
  start-NeverRaises (AnyOperationState.filepp self) =
      NeverRaises-try_catch _ (FileppOperation.report_crash P sink self) (filepp_report self)
  start-NeverRaises (AnyOperationState.notifyu self) =
      NeverRaises-try_catch _ (NotifyuOperation.report_crash P sink self) (notifyu_report self)
