-- ===== src/Timer/Polling.antt =====
-- The loop of `execute_every_t` of include/timer/asio_timer.hpp: when it calls back, and what ends it.
use feedback_ingest.Base.{ℕ, zero, suc, sym, List, ◌∷◌, ◌++◌, Bytes, Never}
use mathlib.Core.List.{append-nil}
use mathlib.Core.Path.{subst}
use feedback_ingest.Platform.{Platform}
use feedback_ingest.Effects.{
  now, sleep, Task, Ending, returned, raised, crashed, unfinished, Event, Ensures, ◌>>=◌,
}
use feedback_ingest.Effects.Traces.{Ensures-mono, Ensures->>=, Followed}
use feedback_ingest.Timer.{Callback, call_callback, rounds, execute}

-- The coroutine went no further.
abbrev pub Stopped : {A : Type 0} → Ending A → Type 0
Stopped (returned a) = Never
Stopped _ = Unit

module _ (P : Platform) (Q : P.Time → List (Event P) → Ending (Unit {0}) → Type 0)
    (duration : ℕ) where
  open P use {Time}

  -- `n` rounds that follow a call at some time, where `Q` says what one call does. A call that
  -- does not return is the last one. After one that does, the clock is read, the timer waits, and
  -- the next call gets the time that was read.
  pub data Polls : ℕ → Time → List (Event P) → Ending (Unit {0}) → Type 0 where
    stops :
        {n : ℕ} {t : Time} {events : List (Event P)} {ending : Ending (Unit {0})}
        → Q t events ending
        → Stopped ending
        → Polls n t events ending
    goes_on :
        {t : Time} {events : List (Event P)}
        → Q t events (returned tt)
        → Polls zero t events unfinished
    again :
        {n : ℕ} {t t' : Time} {events more : List (Event P)} {ending : Ending (Unit {0})}
        → Q t events (returned tt)
        → Polls n t' more ending
        → Polls (suc n) t (events ++ ((now, t') ∷ (sleep duration, tt) ∷ more)) ending

  module _ (callback : Callback P)
      (q : (t : Time) → Ensures (Q t) (call_callback P callback t)) where
    -- A call at `t`, and what follows it.
    unfoldable from : ℕ → Time → Task P (Unit {0})
    from n t = call_callback P callback t >>= λ _. rounds P n duration callback

    after_call :
        (n : ℕ)
        → ((t : Time) (events : List (Event P))
            → Q t events (returned tt)
            → Followed (Polls n t) (λ _. rounds P n duration callback) events (returned tt))
        → (t : Time) → Ensures (Polls n t) (from n t)
    unfolding from
    after_call n returns t =
        Ensures->>= (call_callback P callback t) (λ _. rounds P n duration callback) (Polls n t)
          (Ensures-mono (call_callback P callback t) (Q t) _ followed (q t))
      where
        followed :
            (events : List (Event P)) (ending : Ending (Unit {0}))
            → Q t events ending
            → Followed (Polls n t) (λ _. rounds P n duration callback) events ending
        followed events (returned a) h = returns t events h
        followed events (raised e) h = stops h tt
        followed events crashed h = stops h tt
        followed events unfinished h = stops h tt

    from-Polls : (n : ℕ) (t : Time) → Ensures (Polls n t) (from n t)
    unfolding from rounds
    from-Polls zero t =
        after_call zero
          (λ t events h.
            subst (λ es. Polls zero t es unfinished) (sym (append-nil events)) (goes_on h))
          t
    from-Polls (suc n) t =
        after_call (suc n)
          (λ t events h t' _.
            Ensures-mono (from n t') (Polls n t') _ (λ more ending. again h) (from-Polls n t'))
          t

    -- The loop calls back at the start time and then, round by round, at the time that the clock
    -- showed when the call before had returned; a call that does not return ends it.
    pub execute-Polls :
        (n : ℕ) (start_time : Time) (dedup_id : Bytes)
        → Ensures (Polls n start_time) (execute P n start_time duration callback dedup_id)
    unfolding execute from
    execute-Polls n start_time dedup_id = from-Polls n start_time
