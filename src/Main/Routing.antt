-- ===== src/Main/Routing.antt =====
-- The routes that the requests find while src/main.cpp runs.
use feedback_ingest.Base.{
  ℕ, ◌≡◌, ◌≤◌, refl, ◌∙◌, ◌⊎◌, inl, inr, arith, some, ok, Bytes, bytes_eq, length,
}
use feedback_ingest.Base.Int.{int_max}
use mathlib.Core.Path.{subst}
use feedback_ingest.Platform.{Platform}
use feedback_ingest.FileOps.{FileSystem, sync_read_file_lines}
use feedback_ingest.Effects.{Task, register_route}
use feedback_ingest.Sink.{json_sink}
use feedback_ingest.Timer.{execute_every}
use feedback_ingest.Notifyu.Operation as NotifyuOperation
use feedback_ingest.Server
use feedback_ingest.Notifyu.{NotifyuOperationState}
use feedback_ingest.Server.{find_handler, rest_server}
use feedback_ingest.Server.Routes.{find_handler-register_route}
use feedback_ingest.Application.{AnyOperationState, ApplicationState, model, start}
use feedback_ingest.Application.Tied.{IsTied}
use feedback_ingest.System.{Running, Step, moves, Reach}
use feedback_ingest.System.Duties.{Serves}
use feedback_ingest.System.Routes.{HasRoute, Reach-HasRoute}
use feedback_ingest.System.Begun.{Among, Among-left, Among-map, Among-split, Reach-NotBegunOrRouted}
use feedback_ingest.System.Runs.{Reach-Holds}
use feedback_ingest.Main.{coroutines, load_all, tenant_loader_path}
use feedback_ingest.Main.Startup.{load_all-AllTied}
use feedback_ingest.Main.Isolation.{running, running-Holds}

-- If the set-up is done, and the tenant file has at most 2^31 - 1 lines, then in every run a request
-- that finds a handler finds that of a registered notifyu source which listens on the path of the
-- request, and from then on every request for the path finds one.
pub load_all-find_handler :
    (P : Platform) (F : FileSystem) (files : F.State) (state : ApplicationState) (n : ℕ)
    (s : Running P) (target : Bytes) (self : NotifyuOperationState)
    → length (sync_read_file_lines F files tenant_loader_path) ≤ int_max
    → load_all F files ≡ ok state
    → Reach P (json_sink P) (running P n state) s
    → find_handler target s.server ≡ some self
    → IsTied state.tenant_registry state.data_source_info_registry (AnyOperationState.notifyu self)
      × (target ≡ self.notifyu_info.listening_route)
      × ((t : Running P) → Reach P (json_sink P) s t → HasRoute target t.server)
load_all-find_handler P F files state n s target self room e reached found =
    let S = IsTied state.tenant_registry state.data_source_info_registry in
    let h =
      Reach-Holds P S (running-Holds P n state (load_all-AllTied F files state room e)) reached in
    let (tied, own) = subst (Serves P S target) found (h.serves target) in
    (tied, own, λ t r. Reach-HasRoute P (json_sink P) target r (λ absent. cc))

-- The coroutine of an operation state, at its start.
abbrev pub starting : (P : Platform) → ℕ → ApplicationState → AnyOperationState → Task P (Unit {0})
starting P n state =
    start P (json_sink P) (execute_every P n) (rest_server P (json_sink P) n state.server.port)

starts-Among :
    (P : Platform) (n : ℕ) (state : ApplicationState) (o : AnyOperationState)
    → Among o state.data_source_operation_state_registry.spawned
    → Among (starting P n state o) (coroutines P n state)
unfolding coroutines
starts-Among P n state o h =
    Among-left (starting P n state o) _ _
      (Among-map (starting P n state) o state.data_source_operation_state_registry.spawned h)

-- In every run, a notifyu source that was spawned has not given its first command, or requests for
-- its path find a handler: however the coroutines take turns, one that has begun has its route.
pub running-routed :
    (P : Platform) (n : ℕ) (state : ApplicationState) (self : NotifyuOperationState) (s : Running P)
    → Among (AnyOperationState.notifyu self) state.data_source_operation_state_registry.spawned
    → Reach P (json_sink P) (running P n state) s
    → Among (starting P n state (AnyOperationState.notifyu self)) s.coroutines
      ⊎ HasRoute self.notifyu_info.listening_route s.server
unfolding start model NotifyuOperation.start
running-routed P n state self s h reached =
    Reach-NotBegunOrRouted P (json_sink P) self.notifyu_info.listening_route self
      (starting P n state (AnyOperationState.notifyu self)) refl reached
      (inl (starts-Among P n state _ h))

-- In every run, whatever the coroutines have done so far, a notifyu source that was spawned can
-- register its route in the next step, after which its path finds its own handler, or its path finds
-- a handler already; and from then on every request for the path finds one.
pub running-registers :
    (P : Platform) (n : ℕ) (state : ApplicationState) (self : NotifyuOperationState) (s : Running P)
    → Among (AnyOperationState.notifyu self) state.data_source_operation_state_registry.spawned
    → Reach P (json_sink P) (running P n state) s
    → ((t : Running P) × Step P
          (json_sink P)
          s
          (register_route self.notifyu_info.listening_route self)
          t
        × (find_handler self.notifyu_info.listening_route t.server ≡ some self)
        × ((u : Running P)
            → Reach P (json_sink P) t u
            → HasRoute self.notifyu_info.listening_route u.server))
      ⊎ ((u : Running P)
          → Reach P (json_sink P) s u
          → HasRoute self.notifyu_info.listening_route u.server)
unfolding start model NotifyuOperation.start
running-registers P n state self s h reached =
    let path = self.notifyu_info.listening_route in
    elim (running-routed P n state self s h reached) [
      | inl waiting ↦
          let (before, after, e) = Among-split _ s.coroutines waiting in
          let found : find_handler path (Server.register_route path self s.server) ≡ some self =
            find_handler-register_route path path self s.server ∙ (ground arith) in
          inl (
            _,
            moves before after (register_route path self) _ tt e,
            found,
            λ u r. Reach-HasRoute P (json_sink P) path r (λ absent. cc),
          )
      | inr there ↦ inr (λ u r. Reach-HasRoute P (json_sink P) path r there)
    ]
