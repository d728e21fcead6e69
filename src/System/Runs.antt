-- ===== src/System/Runs.antt =====
-- What holds in every state that the coroutines of the program reach together, and of each command
-- that they give.
use feedback_ingest.Base.{
  ◌≡◌, true, ◌∙◌, inl, inr, arith, List, [], ◌∷◌, ◌++◌, Bytes, All, All-append, bytes_eq, ◌==◌,
  Bool-cases,
}
use mathlib.Core.Path.{subst}
use feedback_ingest.Platform.{Platform}
use feedback_ingest.Effects.{Command, Answer, step, find_route, register_route, spawn_session}
use feedback_ingest.Sink.{json_sink}
use feedback_ingest.Notifyu.{NotifyuOperationState}
use feedback_ingest.Server
use feedback_ingest.Server.{RestServer, find_handler}
use feedback_ingest.Server.Routes.{find_handler-register_route}
use feedback_ingest.Application.{AnyOperationState}
use feedback_ingest.System.{Running, respond, change, spawned_by, Step, moves, Reach, here, later}
use feedback_ingest.System.Duties.{Allowed, Relied, Serves, IsServed}
use feedback_ingest.System.Storing.{KeepsDuties}
use feedback_ingest.System.Serving.{session-KeepsDuties}

All-split :
    {A : Type 0} (Q : A → Type 0) (before : List A) (x : A) (after : List A)
    → All Q (before ++ (x ∷ after))
    → All Q before × Q x × All Q after
All-split Q [] x after (h, hs) = (tt, h, hs)
All-split Q (y ∷ ys) x after (h, hs) = let (b, q, a) = All-split Q ys x after hs in ((h, b), q, a)

module _ (P : Platform) (S : AnyOperationState → Type 0) where
  -- Every route is that of an operation state.
  abbrev pub AllServed : RestServer → Type 0
  AllServed server = (target : Bytes) → Serves P S target (find_handler target server)

  -- The coroutines will keep the duties, and the routes are served.
  pub record Holds (s : Running P) : Type 0 where
    pub keeps : All (KeepsDuties P S) s.coroutines
    pub serves : AllServed s.server

  respond-Relied :
      (c : Command P) (answer : Answer P c) (server : RestServer)
      → AllServed server
      → Relied P S c (respond P (json_sink P) c answer server)
  respond-Relied (find_route target) answer server h = h target
  respond-Relied c answer server h = tt

  registered-AllServed :
      (path : Bytes) (self : NotifyuOperationState) (server : RestServer)
      → IsServed P S path self
      → AllServed server
      → AllServed (Server.register_route path self server)
  registered-AllServed path self server h hs target =
      rw (find_handler-register_route target path self server) (elim (Bool-cases (target == path)) [
        | inl e ↦ rw e (h.0, same e ∙ h.1)
        | inr e ↦ rw e (hs target)
      ])
    where
      same : (target == path) ≡ true → target ≡ path
      same e = ground arith

  change-AllServed :
      (c : Command P) (server : RestServer)
      → Allowed P S c
      → AllServed server
      → AllServed (change P (json_sink P) c server)
  change-AllServed (register_route path self) server h hs =
      registered-AllServed path self server h hs
  change-AllServed c server h hs = hs

  spawned_by-KeepsDuties : (c : Command P) → All (KeepsDuties P S) (spawned_by P (json_sink P) c)
  spawned_by-KeepsDuties (spawn_session socket) = (session-KeepsDuties P S socket, tt)
  spawned_by-KeepsDuties c = tt

  -- A step of a state where this holds gives only what is allowed, and it holds again.
  pub Step-Holds :
      {s : Running P} {c : Command P} {t : Running P}
      → Holds s
      → Step P (json_sink P) s c t
      → Allowed P S c × Holds t
  Step-Holds {s} h (moves before after c k answer e) =
      let (b, (given, next), a) =
        All-split (KeepsDuties P S) before (step c k) after
          (subst (All (KeepsDuties P S)) e h.keeps) in
      (
        given,
        record {
          keeps = All-append (KeepsDuties P S) before _ b (
            next (respond P (json_sink P) c answer s.server)
                (respond-Relied c answer s.server h.serves),
            All-append (KeepsDuties P S) after _ a (spawned_by-KeepsDuties c),
          );
          serves = change-AllServed c s.server given h.serves;
        },
      )

  pub Reach-Holds : {s t : Running P} → Holds s → Reach P (json_sink P) s t → Holds t
  Reach-Holds h here = h
  Reach-Holds h (later r move) = (Step-Holds (Reach-Holds h r) move).1
