-- ===== src/Effects/Reported.antt =====
-- Coroutines (include/coro.hpp) whose exceptions are logged: `try` with a handler that reports.
use feedback_ingest.Base.{◌≡◌, List, [], ◌∷◌, ◌++◌, Bytes, codes, Exception}
use feedback_ingest.Base.Int.{ℤ}
use feedback_ingest.Platform.{Platform}
use feedback_ingest.Effects.{
  Ending, returned, raised, crashed, unfinished, Event, Ensures, log, error, error_id, error_what,
  try_catch, Task,
}
use feedback_ingest.Effects.Traces.{Calm, Ensures-mono, Ensures-try_catch, Handled}

module _ (P : Platform) where
  -- The four lines that are logged of an exception of a source.
  abbrev pub reports : Bytes → ℤ → ℤ → Exception → List (Event P)
  reports what source_id tenant_id e =
      (log (error what), tt)
      ∷ (log (error_id (codes "source_id: {}") source_id), tt)
      ∷ (log (error_id (codes "tenant_id: {}") tenant_id), tt)
      ∷ (log (error_what (codes "exception info: {}") e), tt)
      ∷ []

  -- An exception that `R` ends with is logged, and the coroutine returns; else it is as `R` says.
  pub data Reported (report : Exception → List (Event P))
      (R : List (Event P) → Ending (Unit {0}) → Type 0)
      : List (Event P) → Ending (Unit {0}) → Type 0 where
    calm :
        {events : List (Event P)} {ending : Ending (Unit {0})}
        → R events ending
        → Calm ending
        → Reported report R events ending
    caught :
        {before : List (Event P)} {e : Exception}
        → R before (raised e)
        → Reported report R (before ++ report e) (returned tt)

  -- The handler logs an exception in this way, and returns.
  abbrev pub Reports : (Exception → List (Event P)) → (Exception → Task P (Unit {0})) → Type 0
  Reports report handler =
      (e : Exception)
      → Ensures (λ events ending. (events ≡ report e) × (ending ≡ returned tt)) (handler e)

  module _ (report : Exception → List (Event P)) (handler : Exception → Task P (Unit {0}))
      (reporting : Reports report handler) (R : List (Event P) → Ending (Unit {0}) → Type 0) where
    reported :
        (before : List (Event P)) (e : Exception) (events : List (Event P))
        (ending : Ending (Unit {0}))
        → R before (raised e)
        → (events ≡ report e) × (ending ≡ returned tt)
        → Reported report R (before ++ events) ending
    reported before e events ending h (same, done) = rw (same, done) (caught h)

    handled :
        (events : List (Event P)) (ending : Ending (Unit {0}))
        → R events ending
        → Handled (Reported report R) handler events ending
    handled events (returned a) h = calm h tt
    handled events (raised e) h =
        Ensures-mono (handler e) _ _ (λ more ending. reported events e more ending h) (reporting e)
    handled events crashed h = calm h tt
    handled events unfinished h = calm h tt

    pub try_catch-Reported :
        (m : Task P (Unit {0})) → Ensures R m → Ensures (Reported report R) (try_catch m handler)
    try_catch-Reported m h =
        Ensures-try_catch m handler (Reported report R) (Ensures-mono m R _ handled h)
