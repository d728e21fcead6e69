-- ===== src/Effects/After.antt =====
-- What follows a computation without commands in a coroutine (include/coro.hpp).
use feedback_ingest.Base.{◌≡◌, refl, List, [], ◌++◌, Outcome, ok, throws, undefined, Exception}
use feedback_ingest.Platform.{Platform}
use feedback_ingest.Effects.{
  Task, Ending, returned, raised, crashed, unfinished, Event, Ensures, lift, ◌>>=◌,
}
use feedback_ingest.Effects.Traces.{Ensures-mono, Ensures->>=, Followed}

module _ {P : Platform} {A B : Type 0} where
  -- After a computation that returned, as `W` says of its result; else nothing, and its failure.
  abbrev pub After :
      (A → List (Event P) → Ending B → Type 0) → Outcome A → List (Event P) → Ending B → Type 0
  After W (ok a) events ending = W a events ending
  After W (throws e) events ending = (events ≡ []) × (ending ≡ raised e)
  After W undefined events ending = (events ≡ []) × (ending ≡ crashed)

  pub lift-After :
      (W : A → List (Event P) → Ending B → Type 0) (o : Outcome A) (next : A → Task P B)
      → ((a : A) → Ensures (W a) (next a))
      → Ensures (After W o) (lift o >>= next)
  lift-After W (ok a) next h = h a
  lift-After W (throws e) next h = (refl, refl)
  lift-After W undefined next h = (refl, refl)

module _ {P : Platform} {A : Type 0} where
  -- Nothing more is done, and the value is returned.
  abbrev pub Gives : A → List (Event P) → Ending A → Type 0
  Gives a events ending = (events ≡ []) × (ending ≡ returned a)

module _ (P : Platform) {A : Type 0} where
  pub lift-Gives : (o : Outcome A) → Ensures (After Gives o) (lift {P = P} o)
  lift-Gives (ok a) = (refl, refl)
  lift-Gives (throws e) = (refl, refl)
  lift-Gives undefined = (refl, refl)

module _ {P : Platform} {A B : Type 0} where
  -- A coroutine that does what `R` says, followed, where it returned, by one that does what `W`
  -- says of its result.
  pub data InTurn (R : List (Event P) → Ending A → Type 0)
      (W : A → List (Event P) → Ending B → Type 0) : List (Event P) → Ending B → Type 0 where
    goes_on :
        {a : A} {before more : List (Event P)} {ending : Ending B}
        → R before (returned a)
        → W a more ending
        → InTurn R W (before ++ more) ending
    raises :
        {events : List (Event P)} {e : Exception}
        → R events (raised e)
        → InTurn R W events (raised e)
    crashes : {events : List (Event P)} → R events crashed → InTurn R W events crashed
    pauses : {events : List (Event P)} → R events unfinished → InTurn R W events unfinished

  pub Ensures-InTurn :
      (R : List (Event P) → Ending A → Type 0) (W : A → List (Event P) → Ending B → Type 0)
      (m : Task P A) (next : A → Task P B)
      → Ensures R m
      → ((a : A) → Ensures (W a) (next a))
      → Ensures (InTurn R W) (m >>= next)
  Ensures-InTurn R W m next r w = Ensures->>= m next (InTurn R W) (Ensures-mono m R _ followed r)
    where
      followed :
          (events : List (Event P)) (ending : Ending A)
          → R events ending
          → Followed (InTurn R W) next events ending
      followed events (returned a) h =
          Ensures-mono (next a) (W a) (λ more ending. InTurn R W (events ++ more) ending)
            (λ more ending k. goes_on h k) (w a)
      followed events (raised e) h = raises h
      followed events crashed h = crashes h
      followed events unfinished h = pauses h
