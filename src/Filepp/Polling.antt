-- ===== src/Filepp/Polling.antt =====
-- The polling of include/data_source/filepp/filepp_operation_state.hpp, from `start` on.
use feedback_ingest.Base.{ℕ, refl, ◌≡◌, List, ◌∷◌, ◌++◌, codes, Exception}
use feedback_ingest.Base.Decimal.{to_string}
use feedback_ingest.Platform.{Platform}
use feedback_ingest.Schema.{Schema}
use feedback_ingest.Effects.{Ending, Event, Ensures, now, ◌>>=◌, perform}
use feedback_ingest.Effects.Traces.{Ensures-mono}
use feedback_ingest.Effects.Reported.{reports, Reported, Reports, try_catch-Reported}
use feedback_ingest.Sink.{Sink}
use feedback_ingest.Timer.{Callback, awaitable, execute, execute_every}
use feedback_ingest.Timer.Polling.{Polls, execute-Polls}
use feedback_ingest.Filepp.{FileppOperationState}
use feedback_ingest.Filepp.Operation.{half_hour, extract_transform_and_load, report_crash, start}
use feedback_ingest.Filepp.Rounds.{FileRound, extract_transform_and_load-FileRound}

module _ (P : Platform) (self : FileppOperationState) where
  abbrev pub crash_reports : Exception → List (Event P)
  crash_reports = reports P (codes "filepp source crashed") self.source_id self.tenant_id

  report_crash-Reports : (sink : Sink P) → Reports P crash_reports (report_crash P sink self)
  unfolding report_crash
  report_crash-Reports sink e = λ _ _ _ _. (refl, refl)

  module _ (W : List (Schema P.json.Real) → List (Event P) → Ending (Unit {0}) → Type 0) where
    -- The clock is read once, and then the rounds follow, with a wait of half an hour between them.
    abbrev pub PollsFromNow : ℕ → List (Event P) → Ending (Unit {0}) → Type 0
    PollsFromNow n events ending =
        (t : P.Time) × (more : List (Event P)) × (events ≡ (now, t) ∷ more)
        × Polls P (λ _. FileRound P W self) half_hour n t more ending

    -- If the sink does with schemas what `W` says, `start` reads the file round by round: at once,
    -- and then whenever half an hour has passed since the round before returned. The first
    -- exception of a round is logged and ends the polling.
    pub start-PollsFromNow :
        (sink : Sink P)
        → ((schemas : List (Schema P.json.Real)) → Ensures (W schemas) (sink.write schemas))
        → (n : ℕ)
        → Ensures
            (Reported P crash_reports (PollsFromNow n))
            (start P sink self (execute_every P n))
    unfolding start
    start-PollsFromNow sink writes n =
        let id = to_string self.tenant_id ++ (b'_' ∷ to_string self.source_id) in
        let callback : Callback P = awaitable (λ _. extract_transform_and_load P sink self) in
        try_catch-Reported P crash_reports (report_crash P sink self) (report_crash-Reports sink)
          (PollsFromNow n) (perform now >>= λ t. execute P n t half_hour callback id)
          (λ t.
            Ensures-mono (execute P n t half_hour callback id)
              (Polls P (λ _. FileRound P W self) half_hour n t) _
              (λ more ending h. (t, more, refl, h))
              (execute-Polls P (λ _. FileRound P W self) half_hour callback
                (λ _. extract_transform_and_load-FileRound P W self sink writes) n t id))
