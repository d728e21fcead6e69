-- ===== src/Filepp/Operation.antt =====
-- include/data_source/filepp/filepp_operation_state.hpp
use feedback_ingest.Base.{ℕ, ◌*◌, ◌∷◌, ◌++◌, codes, Exception}
use feedback_ingest.Base.Decimal.{to_string}
use feedback_ingest.Platform.{Platform}
use feedback_ingest.Effects.{
  info_ids, error, error_id, error_what, log, read_file, Task, ◌>>=◌, ◌>>◌, lift, try_catch,
  perform,
}
use feedback_ingest.FileOps.{content_of}
use feedback_ingest.Sink.{Sink}
use feedback_ingest.Timer.{Timer}
use feedback_ingest.Filepp.{FileppOperationState}
use feedback_ingest.Filepp.Algorithms.{to_schema}

-- `std::chrono::minutes(30)`, in seconds
abbrev pub half_hour : ℕ
half_hour = 30 * 60

module _ (P : Platform) (sink : Sink P) (self : FileppOperationState) where
  unfoldable pub extract_transform_and_load : Task P (Unit {0})
  unfolding to_schema
  extract_transform_and_load = do
    perform (
        log (
          info_ids (codes "filepp: Processing data for source_id: {}, tenant_id: {}") self.source_id
            self.tenant_id))
    found ← perform (read_file self.filepp_info.file_path)
    schema ← lift (to_schema P.json self.source_id self.tenant_id (content_of found))
    sink.write schema

  unfoldable pub report_crash : Exception → Task P (Unit {0})
  report_crash e = do
    perform (log (error (codes "filepp source crashed")))
    perform (log (error_id (codes "source_id: {}") self.source_id))
    perform (log (error_id (codes "tenant_id: {}") self.tenant_id))
    perform (log (error_what (codes "exception info: {}") e))

  unfoldable pub start : Timer P → Task P (Unit {0})
  unfolding extract_transform_and_load report_crash to_string
  start schedule_every =
      try_catch
        (schedule_every.every half_hour (λ _. extract_transform_and_load)
          (to_string self.tenant_id ++ (b'_' ∷ to_string self.source_id)))
        report_crash
