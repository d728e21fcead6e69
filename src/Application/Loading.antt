-- ===== src/Application/Loading.antt =====
-- What `load_into_application` of include/data_source/data_source_loader.hpp leaves in the registries.
use feedback_ingest.Base.{
  ℕ, ◌+◌, ◌<◌, ◌≤◌, ◌≡◌, refl, sym, ◌∙◌, true, arith, List, [], ◌∷◌, ◌++◌, map, ok,
}
use feedback_ingest.Base.{length, length-append, length-map, AllPairs}
use feedback_ingest.Base.Int.{int_max}
use mathlib.Core.List.{append_assoc, append-nil}
use feedback_ingest.Registry
use feedback_ingest.Registry.{Key, get, has}
use feedback_ingest.Registry.Invariant.{IsValid}
use feedback_ingest.Registry.Keys.{
  Stored, register_value_lem, Stored-self, Stored-kept, Stored-has, Stored-has_self,
}
use feedback_ingest.DataSource.{InfoHeader, DataLoadEntry}
use feedback_ingest.Application.{
  AnyInfo, AnyOperationState, OperationStateRegistry, InfoRegistry, ApplicationState,
  register_value, subscribe, load_into_application,
}

-- From `r` to `r'`, each of `states` was stored and spawned, in their order.
pub record Spawned (states : List AnyOperationState) (r r' : OperationStateRegistry) : Type 0 where
  pub valid : IsValid r'.registry
  pub grows : length r'.registry.registry ≡ length r.registry.registry + length states
  pub spawns : r'.spawned ≡ r.spawned ++ states

pub register_value-stored :
    (value : AnyOperationState) (r : OperationStateRegistry) (k : Key)
    (r' : Registry.InMemoryRegistry AnyOperationState)
    → Registry.register_value value r.registry ≡ ok (k, r')
    → Registry.get k r' ≡ ok value
    → register_value value r ≡ ok (k, record { registry = r'; spawned = r.spawned ++ (value ∷ []) })
unfolding register_value
register_value-stored value r k r' e reads = rw (e, reads)

pub Stored-Spawned :
    (value : AnyOperationState) (r : OperationStateRegistry) {k : Key}
    {r' : Registry.InMemoryRegistry AnyOperationState}
    → Stored value r.registry k r'
    → Spawned (value ∷ []) r (record { registry = r'; spawned = r.spawned ++ (value ∷ []) })
Stored-Spawned value r s = record { valid = s.valid; grows = omega (arith, s.grows); spawns = refl }

register_value-Spawned :
    (value : AnyOperationState) (r : OperationStateRegistry)
    → IsValid r.registry
    → length r.registry.registry < int_max
    → (k : Key) × (r' : OperationStateRegistry) × (register_value value r ≡ ok (k, r'))
      × Spawned (value ∷ []) r r'
register_value-Spawned value r h room =
    let (k, r', e, s) = register_value_lem value r.registry h room in
    (k, _, register_value-stored value r k r' e (Stored-self s), Stored-Spawned value r s)

pub Spawned-append :
    {xs ys : List AnyOperationState} {r r' r″ : OperationStateRegistry}
    → Spawned xs r r'
    → Spawned ys r' r″
    → Spawned (xs ++ ys) r r″
Spawned-append {xs} {ys} {r} {r'} {r″} s t = record {
  valid = t.valid;
  grows = omega (arith, s.grows, t.grows, length-append xs ys);
  spawns = rw (t.spawns, s.spawns, append_assoc);
}

abbrev pub subscriptions : {I : Type 0} → List (DataLoadEntry I) → ℕ
subscriptions [] = 0
subscriptions (entry ∷ entries) = length entry.subscribing_tenants + subscriptions entries

module _ {I : Type 0} (wrap : InfoHeader I → AnyInfo)
    (make_operation_state : Key → Key → I → AnyOperationState) where
  -- One operation state for each tenant of each entry, with the key that the source got.
  abbrev pub operations_of : List (DataLoadEntry I) → List Key → List AnyOperationState
  operations_of (entry ∷ entries) (source_id ∷ ids) =
      map
        (λ tenant_id.
          make_operation_state source_id tenant_id entry.source_info_with_header.source_info)
        entry.subscribing_tenants
      ++ operations_of entries ids
  operations_of _ _ = []

  subscribe_lem :
      (source_id : Key) (source_info : I) (tenants : List Key) (r : OperationStateRegistry)
      → IsValid r.registry
      → length r.registry.registry + length tenants ≤ int_max
      → (r' : OperationStateRegistry) × (subscribe wrap make_operation_state source_id source_info
            tenants r
          ≡ ok r')
        × Spawned
            (map (λ tenant_id. make_operation_state source_id tenant_id source_info) tenants)
            r
            r'
  unfolding subscribe
  subscribe_lem source_id source_info [] r h room =
      (r, refl, record { valid = h; grows = omega arith; spawns = sym (append-nil r.spawned) })
  subscribe_lem source_id source_info (tenant_id ∷ tenants) r h room =
      let (k, r', e, s) =
        register_value-Spawned (make_operation_state source_id tenant_id source_info) r h
          (omega arith) in
      let (r″, e', t) =
        subscribe_lem source_id source_info tenants r' s.valid (omega (arith, s.grows)) in
      (r″, rw e e', Spawned-append s t)

  -- From `state` to `state'`, the entries were loaded, and `ids` are the keys of their sources.
  pub record Loaded (entries : List (DataLoadEntry I)) (state : ApplicationState) (ids : List Key)
      (state' : ApplicationState) : Type 0 where
    pub valid : IsValid state'.data_source_info_registry
    pub grows :
        length state'.data_source_info_registry.registry
        ≡ length state.data_source_info_registry.registry + length entries
    pub reads :
        AllPairs
          (λ entry id.
            get id state'.data_source_info_registry ≡ ok (wrap entry.source_info_with_header))
          entries
          ids
    pub kept :
        (id : Key)
        → has id state.data_source_info_registry ≡ true
        → get id state'.data_source_info_registry ≡ get id state.data_source_info_registry
    pub operations :
        Spawned
          (operations_of entries ids)
          state.data_source_operation_state_registry
          state'.data_source_operation_state_registry
    pub tenants : state'.tenant_registry ≡ state.tenant_registry
    pub serves : state'.server ≡ state.server

  pub Loaded-nil :
      (state : ApplicationState)
      → IsValid state.data_source_info_registry
      → IsValid state.data_source_operation_state_registry.registry
      → Loaded [] state [] state
  Loaded-nil state h h' = record {
    valid = h;
    grows = omega arith;
    reads = tt;
    kept = λ id there. refl;
    operations = record { valid = h'; grows = omega arith; spawns = sym (append-nil _) };
    tenants = refl;
    serves = refl;
  }

  -- One entry, and then the others.
  pub Loaded-cons :
      (entry : DataLoadEntry I) (entries : List (DataLoadEntry I)) (state state' : ApplicationState)
      {source_id : Key} {infos : InfoRegistry} {registry : OperationStateRegistry} {ids : List Key}
      → Stored (wrap entry.source_info_with_header) state.data_source_info_registry source_id infos
      → Spawned
          (map
            (λ tenant_id.
              make_operation_state source_id tenant_id entry.source_info_with_header.source_info)
            entry.subscribing_tenants)
          state.data_source_operation_state_registry
          registry
      → Loaded entries
          (record state {
            data_source_info_registry = infos;
            data_source_operation_state_registry = registry;
          })
          ids
          state'
      → Loaded (entry ∷ entries) state (source_id ∷ ids) state'
  Loaded-cons entry entries state state' {source_id} s t l = record {
    valid = l.valid;
    grows = omega (arith, l.grows, s.grows);
    reads = (l.kept source_id (Stored-has_self s) ∙ Stored-self s, l.reads);
    kept = λ id there. l.kept id (Stored-has s id there) ∙ Stored-kept s id there;
    operations = Spawned-append t l.operations;
    tenants = l.tenants;
    serves = l.serves;
  }

  -- With two valid registries that have room, `load_into_application` returns: each entry has its
  -- header in the first registry under a key of its own, the headers there before are kept, and one
  -- operation state for each entry and tenant is stored and spawned, in the order of the file.
  pub load_into_application_lem :
      (entries : List (DataLoadEntry I)) (state : ApplicationState)
      → IsValid state.data_source_info_registry
      → length state.data_source_info_registry.registry + length entries ≤ int_max
      → IsValid state.data_source_operation_state_registry.registry
      → length state.data_source_operation_state_registry.registry.registry + subscriptions entries
        ≤ int_max
      → (ids : List Key) × (state' : ApplicationState) × (load_into_application wrap
            make_operation_state entries state
          ≡ ok state')
        × Loaded entries state ids state'
  unfolding load_into_application
  load_into_application_lem [] state h room h' room' = ([], state, refl, Loaded-nil state h h')
  load_into_application_lem (entry ∷ entries) state h room h' room' =
      let (source_id, infos, e, s) =
        register_value_lem (wrap entry.source_info_with_header) state.data_source_info_registry h
          (omega arith) in
      let (registry, e₁, t) =
        subscribe_lem source_id entry.source_info_with_header.source_info entry.subscribing_tenants
          state.data_source_operation_state_registry h' (omega arith) in
      let (ids, state', e₂, l) =
        load_into_application_lem entries
          (record state {
            data_source_info_registry = infos;
            data_source_operation_state_registry = registry;
          })
          s.valid (omega (arith, s.grows)) t.valid
          (omega (
            arith,
            t.grows,
            length-map entry.subscribing_tenants (λ tenant_id.
                make_operation_state source_id tenant_id entry.source_info_with_header.source_info),
          )) in
      (source_id ∷ ids, state', rw (e, e₁) e₂, Loaded-cons entry entries state state' s t l)
