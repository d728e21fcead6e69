-- ===== src/Notifyu/Operation.antt =====
-- include/data_source/notifyu/notifyu_operation_state.hpp
use feedback_ingest.Base.{Bool, true, false, List, codes, Exception}
use feedback_ingest.Platform.{Platform}
use feedback_ingest.Schema.{Schema}
use feedback_ingest.Effects.{
  HttpRequest, info_ids, error, error_id, error_what, log, Task, ◌>>=◌, ◌>>◌, lift, try_catch,
  perform,
}
use feedback_ingest.HttpOps.{send_forbidden_response, send_ok_response}
use feedback_ingest.Concepts.{RestServerConcept}
use feedback_ingest.Sink.{Sink}
use feedback_ingest.Notifyu.{NotifyuOperationState}
use feedback_ingest.Notifyu.Algorithms.{parse_content, is_good_secret_token}

module _ (P : Platform) (sink : Sink P) (self : NotifyuOperationState) where
  -- What follows the test of the token.
  unfoldable pub answer_and_load : Bool → P.Socket → List (Schema P.json.Real) → Task P (Unit {0})
  unfolding send_forbidden_response send_ok_response
  answer_and_load false socket schemas = send_forbidden_response P socket
  answer_and_load true socket schemas = do send_ok_response P socket; sink.write schemas

  unfoldable pub report_failure : Exception → Task P (Unit {0})
  report_failure e = do
    perform (log (error (codes "notifyu request handler failed")))
    perform (log (error_id (codes "source_id: {}") self.source_id))
    perform (log (error_id (codes "tenant_id: {}") self.tenant_id))
    perform (log (error_what (codes "exception info: {}") e))

  -- The block of `try`.
  unfoldable pub process : HttpRequest → P.Socket → Task P (Unit {0})
  unfolding parse_content is_good_secret_token answer_and_load
  process req socket = do
    perform (
        log (
          info_ids (codes "NotifyU: Processing data for source_id: {}, tenant_id: {}")
            self.source_id self.tenant_id))
    (token, schemas) ← lift (parse_content P.json self.source_id self.tenant_id req.body)
    answer_and_load (is_good_secret_token token) socket schemas

  unfoldable pub extract_transform_and_load : HttpRequest → P.Socket → Task P (Unit {0})
  unfolding process report_failure
  extract_transform_and_load req socket = try_catch (process req socket) report_failure

  unfoldable pub report_crash : Exception → Task P (Unit {0})
  report_crash e = do
    perform (log (error (codes "notifyu source crashed")))
    perform (log (error_id (codes "source_id: {}") self.source_id))
    perform (log (error_id (codes "tenant_id: {}") self.tenant_id))
    perform (log (error_what (codes "exception info: {}") e))

  unfoldable pub start : RestServerConcept P NotifyuOperationState → Task P (Unit {0})
  unfolding report_crash
  start server =
      try_catch (server.register_route self.notifyu_info.listening_route self) report_crash
