-- ===== src/System.antt =====
-- The coroutines that the `io_context` of src/main.cpp runs beside one another, in any order of
-- their commands, and the routes of include/rest_server.hpp that they share.
pub mod Duties
pub mod Storing
pub mod Talking
pub mod Sources
pub mod Serving
pub mod Runs
pub mod Routes
pub mod Begun
use feedback_ingest.Base.{◌≡◌, List, [], ◌∷◌, ◌++◌}
use feedback_ingest.Platform.{Platform}
use feedback_ingest.Effects.{Command, spawn_session, register_route, find_route, Answer, Task, step}
use feedback_ingest.Sink.{Sink}
use feedback_ingest.Server
use feedback_ingest.Server.{RestServer, find_handler, session}

pub record Running (P : Platform) : Type 0 where
  pub coroutines : List (Task P (Unit {0}))
  pub server : RestServer

module _ (P : Platform) (sink : Sink P) where
  -- The answer that a command gets: of the routes where it asks for one, and `answer` otherwise.
  abbrev pub respond : (c : Command P) → Answer P c → RestServer → Answer P c
  respond (find_route target) answer server = find_handler target server
  respond _ answer server = answer

  -- What a command leaves of the routes.
  abbrev pub change : Command P → RestServer → RestServer
  change (register_route path handler) server = Server.register_route path handler server
  change _ server = server

  -- The coroutines that a command spawns.
  abbrev pub spawned_by : Command P → List (Task P (Unit {0}))
  spawned_by (spawn_session socket) = session P sink socket ∷ []
  spawned_by _ = []

  -- One coroutine gives its next command and gets an answer. Nothing is asked of the answers of the
  -- world, nor of the choice of the coroutine.
  pub data Step (s : Running P) : Command P → Running P → Type 0 where
    moves :
        (before after : List (Task P (Unit {0}))) (c : Command P)
        (k : Answer P c → Task P (Unit {0})) (answer : Answer P c)
        → s.coroutines ≡ before ++ (step c k ∷ after)
        → Step s c (record {
          coroutines = before ++ (k (respond c answer s.server) ∷ (after ++ spawned_by c));
          server = change c s.server;
        })

  pub data Reach (s : Running P) : Running P → Type 0 where
    here : Reach s s
    later : {t u : Running P} {c : Command P} → Reach s t → Step t c u → Reach s u
