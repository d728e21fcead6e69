-- ===== src/System/Routes.antt =====
-- The routes of include/rest_server.hpp while the coroutines of the program run: a path that has got
-- a handler keeps one.
use feedback_ingest.Base.{◌≢◌, inl, inr, none, Bytes, bytes_eq, ◌==◌, Bool-cases}
use feedback_ingest.Platform.{Platform}
use feedback_ingest.Effects.{Command, register_route}
use feedback_ingest.Sink.{Sink}
use feedback_ingest.Notifyu.{NotifyuOperationState}
use feedback_ingest.Server
use feedback_ingest.Server.{RestServer, find_handler}
use feedback_ingest.Server.Routes.{find_handler-register_route}
use feedback_ingest.System.{Running, change, Step, moves, Reach, here, later}

abbrev pub HasRoute : Bytes → RestServer → Type 0
HasRoute target server = find_handler target server ≢ none

register_route-HasRoute :
    (target path : Bytes) (self : NotifyuOperationState) (server : RestServer)
    → HasRoute target server
    → HasRoute target (Server.register_route path self server)
register_route-HasRoute target path self server h =
    rw (find_handler-register_route target path self server)
      (elim (Bool-cases (target == path)) [ inl e ↦ rw e (λ f. cc) | inr e ↦ rw e h ])

module _ (P : Platform) (sink : Sink P) where
  change-HasRoute :
      (target : Bytes) (c : Command P) (server : RestServer)
      → HasRoute target server
      → HasRoute target (change P sink c server)
  change-HasRoute target (register_route path self) server h =
      register_route-HasRoute target path self server h
  change-HasRoute target c server h = h

  pub Step-HasRoute :
      {s : Running P} {c : Command P} {t : Running P} (target : Bytes)
      → Step P sink s c t
      → HasRoute target s.server
      → HasRoute target t.server
  Step-HasRoute {s} target (moves before after c k answer e) h = change-HasRoute target c s.server h

  pub Reach-HasRoute :
      {s t : Running P} (target : Bytes)
      → Reach P sink s t
      → HasRoute target s.server
      → HasRoute target t.server
  Reach-HasRoute target here h = h
  Reach-HasRoute target (later r move) h = Step-HasRoute target move (Reach-HasRoute target r h)
