-- ===== src/Main.antt =====
-- src/main.cpp, include/constants.hpp and the `load_from_file` of each source.
pub mod Startup
pub mod Isolation
pub mod Routing
pub mod Rows
pub mod Configured
use feedback_ingest.Base.{ℕ, List, [], ◌∷◌, Bytes, codes, map, ◌++◌}
use feedback_ingest.Base.{Outcome, ◌>>=◌}
use feedback_ingest.Platform.{Platform}
use feedback_ingest.Registry.{Key, empty}
use feedback_ingest.Tenant.{EntryMap, load_tenant_file}
use feedback_ingest.FileOps.{FileSystem}
use feedback_ingest.Effects.{Task}
use feedback_ingest.Sink.{json_sink}
use feedback_ingest.Timer.{execute_every}
use feedback_ingest.Server.{rest_server}
use feedback_ingest.Discourse.{DiscourseInfo}
use feedback_ingest.Filepp.{FileppInfo}
use feedback_ingest.Notifyu.{NotifyuInfo}
use feedback_ingest.Discourse.Load as DiscourseLoad
use feedback_ingest.Filepp.Load as FileppLoad
use feedback_ingest.Notifyu.Load as NotifyuLoad
use feedback_ingest.Application.{
  AnyInfo, AnyOperationState, ApplicationState, load_from_file, start,
}

abbrev pub tenant_loader_path : Bytes
tenant_loader_path = codes "loader_files/tenant.txt"

abbrev pub discourse_loader_path : Bytes
discourse_loader_path = codes "loader_files/discourse.txt"

abbrev pub filepp_loader_path : Bytes
filepp_loader_path = codes "loader_files/filepp.txt"

abbrev pub notifyu_loader_path : Bytes
notifyu_loader_path = codes "loader_files/notifyu.txt"

-- `rd::discourse::make_operation_state`
unfoldable pub make_discourse_state : Key → Key → DiscourseInfo → AnyOperationState
make_discourse_state source_id tenant_id source_info =
    AnyOperationState.discourse
      (record { source_id = source_id; tenant_id = tenant_id; discourse_info = source_info })

-- `rd::filepp::make_operation_state`
unfoldable pub make_filepp_state : Key → Key → FileppInfo → AnyOperationState
make_filepp_state source_id tenant_id source_info =
    AnyOperationState.filepp
      (record { source_id = source_id; tenant_id = tenant_id; filepp_info = source_info })

-- `rd::notifyu::make_operation_state`
unfoldable pub make_notifyu_state : Key → Key → NotifyuInfo → AnyOperationState
make_notifyu_state source_id tenant_id source_info =
    AnyOperationState.notifyu
      (record { source_id = source_id; tenant_id = tenant_id; notifyu_info = source_info })

abbrev pub make_application_state : ApplicationState
make_application_state = record {
  tenant_registry = empty;
  data_source_info_registry = empty;
  data_source_operation_state_registry = record { registry = empty; spawned = [] };
  server = record { port = 4000; route_handlers = [] };
}

module _ (F : FileSystem) (files : F.State) where
  -- `rd::discourse::load_from_file`
  unfoldable pub load_discourse : Bytes → EntryMap → ApplicationState → Outcome ApplicationState
  unfolding load_from_file make_discourse_state DiscourseLoad.make_loader_entries
  load_discourse file_path entry_map state =
      load_from_file AnyInfo.discourse make_discourse_state F files file_path entry_map
        DiscourseLoad.make_loader_entries state

  -- `rd::filepp::load_from_file`
  unfoldable pub load_filepp : Bytes → EntryMap → ApplicationState → Outcome ApplicationState
  unfolding load_from_file make_filepp_state FileppLoad.make_loader_entries
  load_filepp file_path entry_map state =
      load_from_file AnyInfo.filepp make_filepp_state F files file_path entry_map
        FileppLoad.make_loader_entries state

  -- `rd::notifyu::load_from_file`
  unfoldable pub load_notifyu : Bytes → EntryMap → ApplicationState → Outcome ApplicationState
  unfolding load_from_file make_notifyu_state NotifyuLoad.make_loader_entries
  load_notifyu file_path entry_map state =
      load_from_file AnyInfo.notifyu make_notifyu_state F files file_path entry_map
        NotifyuLoad.make_loader_entries state

  -- `main` up to `ctx.run()`.
  unfoldable pub load_all : Outcome ApplicationState
  unfolding load_tenant_file load_discourse load_filepp load_notifyu
  load_all = do
    (entries, tenants) ←
        load_tenant_file F files tenant_loader_path make_application_state.tenant_registry
    s₁ ←
        load_discourse discourse_loader_path entries
          (record make_application_state { tenant_registry = tenants })
    s₂ ← load_filepp filepp_loader_path entries s₁
    load_notifyu notifyu_loader_path entries s₂

-- The coroutines that `ctx.run()` runs beside one another, in the order in which they were spawned,
-- their endless loops observed for `n` rounds.
unfoldable pub coroutines : (P : Platform) → ℕ → ApplicationState → List (Task P (Unit {0}))
unfolding start
coroutines P n state =
    let server = rest_server P (json_sink P) n state.server.port in
    map (start P (json_sink P) (execute_every P n) server)
      state.data_source_operation_state_registry.spawned
    ++ (server.start_server ∷ [])
