-- ===== src/Application/Tied.antt =====
-- Operation states whose tenant and source are registered (the registries of
-- include/application_state.hpp).
use feedback_ingest.Base.{
  ◌≡◌, ap, ◌∙◌, true, List, [], ◌∷◌, map, ok, Bytes, All, All-append, AllPairs,
}
use feedback_ingest.Registry.{Key, get, has}
use feedback_ingest.Registry.Invariant.{IsValid}
use feedback_ingest.Registry.Keys.{has_of_get}
use feedback_ingest.Tenant.{TenantRegistry}
use feedback_ingest.DataSource.{InfoHeader, DataLoadEntry}
use feedback_ingest.Application.{
  AnyInfo, AnyOperationState, ApplicationState, InfoRegistry, load_into_application,
}
use feedback_ingest.Application.Loading.{operations_of}
use feedback_ingest.Application.Wiring.{load_into_application-returned}

-- The source id has the header of the state's own source in the registry, and the tenant is there.
abbrev pub IsTied : TenantRegistry → InfoRegistry → AnyOperationState → Type 0
IsTied tenants infos (AnyOperationState.discourse self) =
    (has self.tenant_id tenants ≡ true)
    × ((name : Bytes) × (get self.source_id infos
          ≡ ok (AnyInfo.discourse (record { name = name; source_info = self.discourse_info }))))
IsTied tenants infos (AnyOperationState.filepp self) =
    (has self.tenant_id tenants ≡ true)
    × ((name : Bytes) × (get self.source_id infos
          ≡ ok (AnyInfo.filepp (record { name = name; source_info = self.filepp_info }))))
IsTied tenants infos (AnyOperationState.notifyu self) =
    (has self.tenant_id tenants ≡ true)
    × ((name : Bytes) × (get self.source_id infos
          ≡ ok (AnyInfo.notifyu (record { name = name; source_info = self.notifyu_info }))))

-- The registries are valid, every operation state that was spawned is tied, and there is no route
-- yet.
pub record AllTied (state : ApplicationState) : Type 0 where
  pub tenants : IsValid state.tenant_registry
  pub infos : IsValid state.data_source_info_registry
  pub operations : IsValid state.data_source_operation_state_registry.registry
  pub tied :
      All
        (IsTied state.tenant_registry state.data_source_info_registry)
        state.data_source_operation_state_registry.spawned
  pub routes : state.server.route_handlers ≡ []

module _ (tenants : TenantRegistry) (before after : InfoRegistry)
    (kept : (id : Key) → has id before ≡ true → get id after ≡ get id before) where
  get-kept : (id : Key) (info : AnyInfo) → get id before ≡ ok info → get id after ≡ ok info
  get-kept id info e = kept id (has_of_get before id info e) ∙ e

  IsTied-kept : (o : AnyOperationState) → IsTied tenants before o → IsTied tenants after o
  IsTied-kept (AnyOperationState.discourse self) (live, (name, e)) =
      (live, (name, get-kept self.source_id _ e))
  IsTied-kept (AnyOperationState.filepp self) (live, (name, e)) =
      (live, (name, get-kept self.source_id _ e))
  IsTied-kept (AnyOperationState.notifyu self) (live, (name, e)) =
      (live, (name, get-kept self.source_id _ e))

  All-IsTied-kept :
      (os : List AnyOperationState) → All (IsTied tenants before) os → All (IsTied tenants after) os
  All-IsTied-kept [] _ = tt
  All-IsTied-kept (o ∷ os) (h, hs) = (IsTied-kept o h, All-IsTied-kept os hs)

-- Each tenant of the entry is registered.
abbrev pub HasTenants : {I : Type 0} → TenantRegistry → DataLoadEntry I → Type 0
HasTenants tenants entry = All (λ t. has t tenants ≡ true) entry.subscribing_tenants

module _ {I : Type 0} (wrap : InfoHeader I → AnyInfo)
    (make_operation_state : Key → Key → I → AnyOperationState)
    (tied : (tenants : TenantRegistry) (infos : InfoRegistry) (id t : Key) (h : InfoHeader I)
      → has t tenants ≡ true
      → get id infos ≡ ok (wrap h)
      → IsTied tenants infos (make_operation_state id t h.source_info)) where
  one_source-IsTied :
      (tenants : TenantRegistry) (infos : InfoRegistry) (id : Key) (h : InfoHeader I)
      (ts : List Key)
      → get id infos ≡ ok (wrap h)
      → All (λ t. has t tenants ≡ true) ts
      → All (IsTied tenants infos) (map (λ t. make_operation_state id t h.source_info) ts)
  one_source-IsTied tenants infos id h [] e _ = tt
  one_source-IsTied tenants infos id h (t ∷ ts) e (live, lives) =
      (tied tenants infos id t h live e, one_source-IsTied tenants infos id h ts e lives)

  operations_of-IsTied :
      (tenants : TenantRegistry) (infos : InfoRegistry) (entries : List (DataLoadEntry I))
      (ids : List Key)
      → AllPairs (λ entry id. get id infos ≡ ok (wrap entry.source_info_with_header)) entries ids
      → All (HasTenants tenants) entries
      → All (IsTied tenants infos) (operations_of wrap make_operation_state entries ids)
  operations_of-IsTied tenants infos [] [] _ _ = tt
  operations_of-IsTied tenants infos [] (id ∷ ids) r _ = tt
  operations_of-IsTied tenants infos (entry ∷ entries) [] r _ = tt
  operations_of-IsTied tenants infos (entry ∷ entries) (id ∷ ids) (r, rs) (l, ls) =
      All-append (IsTied tenants infos) (map _ entry.subscribing_tenants)
        (operations_of wrap make_operation_state entries ids)
        (one_source-IsTied tenants infos id entry.source_info_with_header entry.subscribing_tenants
          r l)
        (operations_of-IsTied tenants infos entries ids rs ls)

  -- Loading entries whose tenants are registered leaves every spawned state tied, the earlier ones
  -- included, and the tenants as they were.
  pub load_into_application-AllTied :
      (entries : List (DataLoadEntry I)) (state state' : ApplicationState)
      → AllTied state
      → All (HasTenants state.tenant_registry) entries
      → load_into_application wrap make_operation_state entries state ≡ ok state'
      → AllTied state' × (state'.tenant_registry ≡ state.tenant_registry)
  load_into_application-AllTied entries state state' h lives e =
      let (ids, l) =
        load_into_application-returned wrap make_operation_state entries state state' h.infos
          h.operations e in
      (
        record {
          tenants = rw l.tenants h.tenants;
          infos = l.valid;
          operations = l.operations.valid;
          tied =
              rw (l.operations.spawns, l.tenants)
                (All-append (IsTied state.tenant_registry state'.data_source_info_registry)
                  state.data_source_operation_state_registry.spawned
                  (operations_of wrap make_operation_state entries ids)
                  (All-IsTied-kept state.tenant_registry state.data_source_info_registry
                    state'.data_source_info_registry l.kept
                    state.data_source_operation_state_registry.spawned h.tied)
                  (operations_of-IsTied state.tenant_registry state'.data_source_info_registry
                    entries ids l.reads lives));
          routes = ap (λ server. server.route_handlers) l.serves ∙ h.routes;
        },
        l.tenants,
      )
