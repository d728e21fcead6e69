-- ===== src/Effects/Runs.antt =====
-- Single runs of the coroutines of include/coro.hpp.
use feedback_ingest.Base.{List, [], ◌∷◌, Exception}
use feedback_ingest.Platform.{Platform}
use feedback_ingest.Effects.{
  Task, ret, raise, crash, paused, step, Command, Answer, Ending, returned, raised, crashed,
  unfinished, Event, Ensures,
}

infixr 20 ◌▸◌
-- A run of a coroutine: its commands with what the system answers, and its ending.
pub data Run {P : Platform} {A : Type 0} : Task P A → List (Event P) → Ending A → Type 0 where
  returns : {a : A} → Run (ret a) [] (returned a)
  raises : {e : Exception} → Run (raise e) [] (raised e)
  crashes : Run crash [] crashed
  pauses : Run paused [] unfinished
  ◌▸◌ :
      {c : Command P} {k : Answer P c → Task P A} (r : Answer P c) {events : List (Event P)}
      {ending : Ending A}
      → Run (k r) events ending
      → Run (step c k) ((c, r) ∷ events) ending

-- What is ensured of a coroutine holds of each of its runs.
pub Run-Ensures {ℓ} :
    {P : Platform} {A : Type 0} {m : Task P A} {events : List (Event P)} {ending : Ending A}
    (Q : List (Event P) → Ending A → Type ℓ)
    → Run m events ending
    → Ensures Q m
    → Q events ending
Run-Ensures Q returns h = h
Run-Ensures Q raises h = h
Run-Ensures Q crashes h = h
Run-Ensures Q pauses h = h
Run-Ensures Q (◌▸◌ {c = c} r run) h = Run-Ensures (λ events. Q ((c, r) ∷ events)) run (h r)
