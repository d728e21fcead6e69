-- ===== src/Discourse/Operation.antt =====
-- include/data_source/discourse/discourse_operation_state.hpp
use feedback_ingest.Base.{ℕ, ◌*◌, List, ◌∷◌, ◌++◌, codes, Exception}
use feedback_ingest.Base.Int.{ℤ}
use feedback_ingest.Base.Decimal.{to_string}
use feedback_ingest.Platform.{Platform}
use feedback_ingest.Schema.{Schema}
use feedback_ingest.Effects.{
  info_ids, error, error_id, error_what, now, log, Task, ◌>>=◌, ◌>>◌, lift, try_catch, perform,
}
use feedback_ingest.HttpOps.{http_get}
use feedback_ingest.Sink.{Sink}
use feedback_ingest.Timer.{Timer}
use feedback_ingest.Discourse.{DiscourseOperationState}
use feedback_ingest.Discourse.Algorithms.{
  make_url_for_posts_between, make_url_for_post_ids, get_post_ids, raw_posts_to_schema,
}

-- `std::chrono::days(1)`, in seconds
abbrev pub one_day : ℕ
one_day = 24 * 60 * 60

module _ (P : Platform) where
  open P use {Time}

  unfoldable pub fetch_posts_between : ℤ → ℤ → ℤ → Time → Time → Task P (List (Schema P.json.Real))
  unfolding http_get make_url_for_posts_between make_url_for_post_ids get_post_ids
      raw_posts_to_schema
  fetch_posts_between source_id tenant_id topic_id begin end = do
    range_url_res ← http_get P (make_url_for_posts_between P.date begin end)
    post_ids ← lift (get_post_ids P.json range_url_res topic_id)
    post_ids_url_res ← http_get P (make_url_for_post_ids topic_id post_ids)
    lift (raw_posts_to_schema P.json post_ids_url_res source_id tenant_id)

  module _ (sink : Sink P) (self : DiscourseOperationState) where
    unfoldable pub extract_transform_and_load : Time → Task P (Unit {0})
    unfolding fetch_posts_between
    extract_transform_and_load prev_time = do
      perform (
          log (
            info_ids (codes "Discourse: Processing data for source_id: {}, tenant_id: {}")
              self.source_id self.tenant_id))
      end ← perform now
      schemas ←
          fetch_posts_between self.source_id self.tenant_id self.discourse_info.topic_id prev_time
            end
      sink.write schemas

    unfoldable pub report_crash : Exception → Task P (Unit {0})
    report_crash e = do
      perform (log (error (codes "Discourse source crashed")))
      perform (log (error_id (codes "source_id: {}") self.source_id))
      perform (log (error_id (codes "tenant_id: {}") self.tenant_id))
      perform (log (error_what (codes "exception info: {}") e))

    unfoldable pub start : Timer P → Task P (Unit {0})
    unfolding extract_transform_and_load report_crash to_string
    start schedule_every =
        try_catch
          (schedule_every.every_from P.year_2023 one_day extract_transform_and_load
            (to_string self.tenant_id ++ (b'_' ∷ to_string self.source_id)))
          report_crash
