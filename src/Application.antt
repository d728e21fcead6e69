-- ===== src/Application.antt =====
-- include/application_state.hpp, with the registries of include/data_source and the loading of
-- data_source_loader.hpp.
pub mod Loading
pub mod Starts
pub mod Wiring
pub mod Tied
pub mod Shown
pub mod Purposes
use feedback_ingest.Base.{ℕ, Bool, Option, List, [], ◌∷◌, ◌++◌, Bytes}
use feedback_ingest.Base.{Outcome, ok, ◌>>=◌}
use feedback_ingest.Base.Int.{ℤ}
use feedback_ingest.Platform.{Platform}
use feedback_ingest.Registry
use feedback_ingest.Registry.{Key, InMemoryRegistry}
use feedback_ingest.Tenant.{TenantRegistry, EntryMap}
use feedback_ingest.FileOps.{FileSystem, sync_read_file_lines}
use feedback_ingest.DataSource.{InfoHeader, DataLoadEntry}
use feedback_ingest.Discourse.{DiscourseInfo, DiscourseOperationState}
use feedback_ingest.Filepp.{FileppInfo, FileppOperationState}
use feedback_ingest.Notifyu.{NotifyuInfo, NotifyuOperationState}
use feedback_ingest.Effects.{Task}
use feedback_ingest.Concepts.{RestServerConcept, OperationStateConcept}
use feedback_ingest.Sink.{Sink}
use feedback_ingest.Timer.{Timer}
use feedback_ingest.Server.{RestServer}
use feedback_ingest.Discourse.Operation as DiscourseOperation
use feedback_ingest.Filepp.Operation as FileppOperation
use feedback_ingest.Notifyu.Operation as NotifyuOperation

-- The values that the program puts into a `std::any`.
pub data AnyInfo : Type 0 where
  discourse : InfoHeader DiscourseInfo → AnyInfo
  filepp : InfoHeader FileppInfo → AnyInfo
  notifyu : InfoHeader NotifyuInfo → AnyInfo

-- `data_source_info_registry_t`
abbrev pub InfoRegistry : Type 0
InfoRegistry = InMemoryRegistry AnyInfo

-- `any_operation_state`: the types that it is made from.
pub data AnyOperationState : Type 0 where
  discourse : DiscourseOperationState → AnyOperationState
  filepp : FileppOperationState → AnyOperationState
  notifyu : NotifyuOperationState → AnyOperationState

abbrev pub source_id_of : AnyOperationState → Key
source_id_of (AnyOperationState.discourse self) = self.source_id
source_id_of (AnyOperationState.filepp self) = self.source_id
source_id_of (AnyOperationState.notifyu self) = self.source_id

abbrev pub tenant_id_of : AnyOperationState → Key
tenant_id_of (AnyOperationState.discourse self) = self.tenant_id
tenant_id_of (AnyOperationState.filepp self) = self.tenant_id
tenant_id_of (AnyOperationState.notifyu self) = self.tenant_id

-- `any_operation_state::model`: an object of some type that is an operation state.
pub record Model (P : Platform) : Type 1 where
  pub T : Type 0
  pub concept : OperationStateConcept P T
  pub object : T

module _ (P : Platform) (sink : Sink P) (timer : Timer P)
    (server : RestServerConcept P NotifyuOperationState) where
  -- The constructor of `any_operation_state`, for each type that the program makes one from.
  unfoldable pub model : AnyOperationState → Model P
  unfolding DiscourseOperation.start FileppOperation.start NotifyuOperation.start
  model (AnyOperationState.discourse self) = record {
    T = DiscourseOperationState;
    concept = record { start = λ object. DiscourseOperation.start P sink object timer };
    object = self;
  }
  model (AnyOperationState.filepp self) = record {
    T = FileppOperationState;
    concept = record { start = λ object. FileppOperation.start P sink object timer };
    object = self;
  }
  model (AnyOperationState.notifyu self) = record {
    T = NotifyuOperationState;
    concept = record { start = λ object. NotifyuOperation.start P sink object server };
    object = self;
  }

  -- `any_operation_state::start`
  unfoldable pub start : AnyOperationState → Task P (Unit {0})
  unfolding model
  start op_state = let held = model op_state in held.concept.start held.object

-- `data_source_operation_state_registry_t`. `spawned` are the operation states whose `start` was
-- handed to the `io_context`, the first one first.
pub record OperationStateRegistry : Type 0 where
  pub registry : InMemoryRegistry AnyOperationState
  pub spawned : List AnyOperationState

unfoldable pub register_value :
    AnyOperationState → OperationStateRegistry → Outcome (Key × OperationStateRegistry)
unfolding Registry.register_value Registry.get
register_value value r = do
  (res, registry) ← Registry.register_value value r.registry
  state ← Registry.get res registry
  ok (res, record { registry = registry; spawned = r.spawned ++ (state ∷ []) })

unfoldable pub remove : Key → OperationStateRegistry → Bool × OperationStateRegistry
unfolding Registry.remove
remove key r =
    let (removed, registry) = Registry.remove key r.registry in
    (removed, record r { registry = registry })

-- `application_state_t`; the sink has no members.
pub record ApplicationState : Type 0 where
  pub tenant_registry : TenantRegistry
  pub data_source_info_registry : InfoRegistry
  pub data_source_operation_state_registry : OperationStateRegistry
  pub server : RestServer

module _ {I : Type 0} (wrap : InfoHeader I → AnyInfo)
    (make_operation_state : Key → Key → I → AnyOperationState) where
  -- The inner loop of `load_into_application`.
  unfoldable pub subscribe :
      Key → I → List Key → OperationStateRegistry → Outcome OperationStateRegistry
  unfolding register_value
  subscribe source_id source_info [] registry = ok registry
  subscribe source_id source_info (tenant_id ∷ tenants) registry = do
    (key, registry') ←
        register_value (make_operation_state source_id tenant_id source_info) registry
    subscribe source_id source_info tenants registry'

  unfoldable pub load_into_application :
      List (DataLoadEntry I) → ApplicationState → Outcome ApplicationState
  unfolding Registry.register_value subscribe
  load_into_application [] state = ok state
  load_into_application (entry ∷ entries) state = do
    (source_id, infos) ←
        Registry.register_value (wrap entry.source_info_with_header) state.data_source_info_registry
    registry ←
        subscribe source_id entry.source_info_with_header.source_info entry.subscribing_tenants
          state.data_source_operation_state_registry
    load_into_application entries (record state {
      data_source_info_registry = infos;
      data_source_operation_state_registry = registry;
    })

  unfoldable pub load_from_file :
      (F : FileSystem)
      → F.State
      → Bytes
      → EntryMap
      → (EntryMap → List Bytes → Outcome (List (DataLoadEntry I)))
      → ApplicationState
      → Outcome ApplicationState
  unfolding sync_read_file_lines load_into_application
  load_from_file F files file_path entry_map make_loader_entries state = do
    entries ← make_loader_entries entry_map (sync_read_file_lines F files file_path)
    load_into_application entries state
