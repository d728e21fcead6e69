-- ===== src/Discourse/Polling.antt =====
-- The polling of include/data_source/discourse/discourse_operation_state.hpp, from `start` on.
use feedback_ingest.Base.{ℕ, refl, List, ◌∷◌, ◌++◌, Bytes, codes, Exception}
use feedback_ingest.Platform.{Platform}
use feedback_ingest.Schema.{Schema}
use feedback_ingest.Effects.{Ending, Event, Ensures}
use feedback_ingest.Effects.Reported.{reports, Reported, Reports, try_catch-Reported}
use feedback_ingest.Base.Decimal.{to_string}
use feedback_ingest.HttpOps.{http_get}
use feedback_ingest.Sink.{Sink}
use feedback_ingest.Timer.{awaitable, execute, execute_every}
use feedback_ingest.Timer.Polling.{Polls, execute-Polls}
use feedback_ingest.Discourse.{DiscourseOperationState}
use feedback_ingest.Discourse.Operation.{one_day, extract_transform_and_load, report_crash, start}
use feedback_ingest.Discourse.Rounds.{ForumRound, extract_transform_and_load-ForumRound}

module _ (P : Platform) (self : DiscourseOperationState) where
  abbrev pub crash_reports : Exception → List (Event P)
  crash_reports = reports P (codes "Discourse source crashed") self.source_id self.tenant_id

  report_crash-Reports : (sink : Sink P) → Reports P crash_reports (report_crash P sink self)
  unfolding report_crash
  report_crash-Reports sink e = λ _ _ _ _. (refl, refl)

  -- If `http_get` does with a URL what `G` says, and the sink with schemas what `W` says, `start`
  -- asks round by round: the first round from 2023-01-01 on, each later one from the time that the
  -- clock showed when the round before had returned, a day's wait between them. The first
  -- exception of a round is logged and ends the polling.
  pub start-Reported :
      (G : Bytes → List (Event P) → Ending Bytes → Type 0)
      (W : List (Schema P.json.Real) → List (Event P) → Ending (Unit {0}) → Type 0) (sink : Sink P)
      → ((url : Bytes) → Ensures (G url) (http_get P url))
      → ((schemas : List (Schema P.json.Real)) → Ensures (W schemas) (sink.write schemas))
      → (n : ℕ)
      → Ensures
          (Reported P crash_reports (Polls P (ForumRound P G W self) one_day n P.year_2023))
          (start P sink self (execute_every P n))
  unfolding start
  start-Reported G W sink gets writes n =
      try_catch-Reported P crash_reports (report_crash P sink self) (report_crash-Reports sink)
        (Polls P (ForumRound P G W self) one_day n P.year_2023)
        (execute P n P.year_2023 one_day (awaitable (extract_transform_and_load P sink self))
          (to_string self.tenant_id ++ (b'_' ∷ to_string self.source_id)))
        (execute-Polls P (ForumRound P G W self) one_day
          (awaitable (extract_transform_and_load P sink self))
          (extract_transform_and_load-ForumRound P G W self gets sink writes) n P.year_2023
          (to_string self.tenant_id ++ (b'_' ∷ to_string self.source_id)))
