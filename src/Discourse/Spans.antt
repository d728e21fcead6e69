-- ===== src/Discourse/Spans.antt =====
-- The spans of time that the rounds of include/data_source/discourse/discourse_operation_state.hpp
-- ask for.
use feedback_ingest.Base.{ℕ, ◌≡◌, refl, List, [], ◌∷◌, ◌++◌, Bytes, Exception}
use mathlib.Core.Path.{subst}
use feedback_ingest.Platform.{Platform}
use feedback_ingest.Schema.{Schema}
use feedback_ingest.Effects.Runs.{Run, Run-Ensures}
use feedback_ingest.Effects.Reported.{Reported, calm, caught}
use feedback_ingest.HttpOps.{http_get}
use feedback_ingest.Sink.{Sink}
use feedback_ingest.Timer.{execute_every}
use feedback_ingest.Discourse.Operation.{one_day, start}
use feedback_ingest.Discourse.Polling.{crash_reports, start-Reported}
use feedback_ingest.Effects.{Ensures, now, sleep, Ending, Event}
use feedback_ingest.Timer.Polling.{Polls, stops, goes_on, again}
use feedback_ingest.Discourse.{DiscourseOperationState}
use feedback_ingest.Discourse.Rounds.{ForumRound}

module _ {Time : Type 0} (◌⊑◌ : Time → Time → Type 0) where
  infix 20 ◌⊑◌
  -- From `low` on the clock never went back.
  abbrev pub Ascends : Time → List Time → Type 0
  Ascends low [] = Unit
  Ascends low (t ∷ ts) = (low ⊑ t) × Ascends t ts

  -- Each span begins no earlier than `low` and the end of the one before, and ends no earlier than
  -- it begins.
  abbrev pub InOrder : Time → List (Time × Time) → Type 0
  InOrder low [] = Unit
  InOrder low ((begin, end) ∷ spans) = (low ⊑ begin) × (begin ⊑ end) × InOrder end spans

module _ {Time : Type 0} (◌⊑◌ : Time → Time → Type 0)
    (through : (t u v : Time) → ◌⊑◌ t u → ◌⊑◌ u v → ◌⊑◌ t v) where
  infix 20 ◌⊑◌
  Ascends-append :
      (low t : Time) (ts us : List Time)
      → Ascends ◌⊑◌ low (ts ++ (t ∷ us))
      → (low ⊑ t) × Ascends ◌⊑◌ t us
  Ascends-append low t [] us h = h
  Ascends-append low t (u ∷ ts) us (h, hs) =
      let (k, ks) = Ascends-append u t ts us hs in (through low u t h k, ks)

  Ascends-prefix :
      (low : Time) (ts us : List Time) → Ascends ◌⊑◌ low (ts ++ us) → Ascends ◌⊑◌ low ts
  Ascends-prefix low [] us h = tt
  Ascends-prefix low (t ∷ ts) us (h, hs) = (h, Ascends-prefix t ts us hs)

  InOrder-from :
      (low low' : Time) (spans : List (Time × Time))
      → low ⊑ low'
      → InOrder ◌⊑◌ low' spans
      → InOrder ◌⊑◌ low spans
  InOrder-from low low' [] h _ = tt
  InOrder-from low low' ((begin, end) ∷ more) h (k, k', ks) = (through low low' begin h k, k', ks)

module _ {P : Platform} where
  open P use {Time}

  -- What the clock showed, in order.
  abbrev pub clock : List (Event P) → List Time
  clock [] = []
  clock ((now, t) ∷ events) = t ∷ clock events
  clock (event ∷ events) = clock events

  clock-append : (xs ys : List (Event P)) → clock (xs ++ ys) ≡ clock xs ++ clock ys
  clock-append [] ys = refl
  clock-append ((now, t) ∷ xs) ys = rw (clock-append xs ys) refl
  clock-append (event ∷ xs) ys = clock-append xs ys

module _ (P : Platform) (G : Bytes → List (Event P) → Ending Bytes → Type 0)
    (W : List (Schema P.json.Real) → List (Event P) → Ending (Unit {0}) → Type 0)
    (self : DiscourseOperationState) (duration : ℕ) where
  open P use {Time}

  abbrev Rounds : ℕ → Time → List (Event P) → Ending (Unit {0}) → Type 0
  Rounds = Polls P (ForumRound P G W self) duration

  -- The begin and the end of the span of each round.
  abbrev pub spans :
      {n : ℕ} {t : Time} {events : List (Event P)} {ending : Ending (Unit {0})}
      → Rounds n t events ending
      → List (Time × Time)
  spans {t = t} (stops (end, _, _, _) _) = (t, end) ∷ []
  spans {t = t} (goes_on (end, _, _, _)) = (t, end) ∷ []
  spans {t = t} (again (end, _, _, _) rounds) = (t, end) ∷ spans rounds

  -- The rounds, with their spans in order from `t` on.
  abbrev pub OrderedRounds :
      (Time → Time → Type 0) → ℕ → Time → List (Event P) → Ending (Unit {0}) → Type 0
  OrderedRounds ◌⊑◌ n t events ending =
      (rounds : Rounds n t events ending) × InOrder ◌⊑◌ t (spans rounds)

  module _ (◌⊑◌ : Time → Time → Type 0) (same : (t : Time) → ◌⊑◌ t t)
      (through : (t u v : Time) → ◌⊑◌ t u → ◌⊑◌ u v → ◌⊑◌ t v) where
    spans-InOrder :
        {n : ℕ} {t : Time} {events : List (Event P)} {ending : Ending (Unit {0})}
        (rounds : Rounds n t events ending)
        → Ascends ◌⊑◌ t (clock events)
        → InOrder ◌⊑◌ t (spans rounds)
    spans-InOrder {t = t} (stops (end, more, e, _) _) h =
        (same t, (subst (λ es. Ascends ◌⊑◌ t (clock es)) e h).0, tt)
    spans-InOrder {t = t} (goes_on (end, more, e, _)) h =
        (same t, (subst (λ es. Ascends ◌⊑◌ t (clock es)) e h).0, tt)
    spans-InOrder {t = t} (again {t' = t'} {more = later} (end, more, e, _) rounds) h =
        let (first, rest) =
          subst (λ es. Ascends ◌⊑◌ t (clock (es ++ ((now, t') ∷ (sleep duration, tt) ∷ later)))) e
            h in
        let (next, ascends) =
          Ascends-append ◌⊑◌ through end t' (clock more) (clock later)
            (subst (Ascends ◌⊑◌ end) (clock-append more _) rest) in
        (
          same t,
          first,
          InOrder-from ◌⊑◌ through end t' (spans rounds) next (spans-InOrder rounds ascends),
        )

    ordered :
        {report : Exception → List (Event P)} {n : ℕ} {t : Time} {events : List (Event P)}
        {ending : Ending (Unit {0})}
        → Reported P report (Rounds n t) events ending
        → Ascends ◌⊑◌ t (clock events)
        → Reported P report (OrderedRounds ◌⊑◌ n t) events ending
    ordered (calm rounds quiet) h = calm (rounds, spans-InOrder rounds h) quiet
    ordered {report = report} {t = t} (caught {before} {e} rounds) h = caught (
      rounds,
      spans-InOrder rounds (
          Ascends-prefix ◌⊑◌ through t (clock before) (clock (report e))
            (subst (Ascends ◌⊑◌ t) (clock-append before (report e)) h)),
    )

module _ (P : Platform) (G : Bytes → List (Event P) → Ending Bytes → Type 0)
    (W : List (Schema P.json.Real) → List (Event P) → Ending (Unit {0}) → Type 0)
    (self : DiscourseOperationState) where
  open P use {Time}

  -- If `http_get` does with a URL what `G` says, and the sink with schemas what `W` says, then in
  -- each run of `start` in which the clock does not go back from 2023-01-01 on, the spans of time
  -- that the rounds ask for are in order and none overlaps another: each begins at or after the end
  -- of the one before, and ends at or after its begin. The first exception of a round is logged and
  -- ends the polling.
  pub start-OrderedRounds :
      (◌⊑◌ : Time → Time → Type 0) (same : (t : Time) → ◌⊑◌ t t)
      (through : (t u v : Time) → ◌⊑◌ t u → ◌⊑◌ u v → ◌⊑◌ t v) (sink : Sink P)
      → ((url : Bytes) → Ensures (G url) (http_get P url))
      → ((schemas : List (Schema P.json.Real)) → Ensures (W schemas) (sink.write schemas))
      → (n : ℕ) {events : List (Event P)} {ending : Ending (Unit {0})}
      → Run (start P sink self (execute_every P n)) events ending
      → Ascends ◌⊑◌ P.year_2023 (clock events)
      → Reported P
          (crash_reports P self)
          (OrderedRounds P G W self one_day ◌⊑◌ n P.year_2023)
          events
          ending
  start-OrderedRounds ◌⊑◌ same through sink gets writes n run =
      ordered P G W self one_day ◌⊑◌ same through
        (Run-Ensures _ run (start-Reported P self G W sink gets writes n))
