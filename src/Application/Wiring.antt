-- ===== src/Application/Wiring.antt =====
-- What a call of `load_into_application` of include/data_source/data_source_loader.hpp that returned
-- has done, and that it keeps every operation state tied to its source and its tenant.
use feedback_ingest.Base.{◌≡◌, sym, ◌∙◌, List, [], ◌∷◌, map, ok, >>=-ok, ok-injective, arith}
use mathlib.Core.List.{append-nil}
use mathlib.Core.Path.{subst}
use feedback_ingest.Registry
use feedback_ingest.Registry.{Key, get, has}
use feedback_ingest.Registry.Invariant.{IsValid}
use feedback_ingest.Registry.Keys.{Stored-self}
use feedback_ingest.Registry.Returned.{register_value-Stored}
use feedback_ingest.DataSource.{InfoHeader, DataLoadEntry}
use feedback_ingest.Application.{
  AnyInfo, AnyOperationState, OperationStateRegistry, ApplicationState, register_value, subscribe,
  load_into_application,
}
use feedback_ingest.Application.Loading.{
  Stored-Spawned, register_value-stored, Loaded-nil, Loaded-cons, Spawned, Spawned-append, Loaded,
}

register_value-returned :
    (value : AnyOperationState) (r : OperationStateRegistry)
    → IsValid r.registry
    → {k : Key} {r' : OperationStateRegistry} → register_value value r ≡ ok (k, r')
    → Spawned (value ∷ []) r r'
unfolding register_value
register_value-returned value r h e =
    let ((k₀, r₀), e₀, _) = >>=-ok (Registry.register_value value r.registry) _ e in
    let s = register_value-Stored value r.registry h e₀ in
    subst (λ (t : Key × OperationStateRegistry). Spawned (value ∷ []) r t.1)
      (ok-injective (sym (register_value-stored value r k₀ r₀ e₀ (Stored-self s)) ∙ e))
      (Stored-Spawned value r s)

module _ {I : Type 0} (wrap : InfoHeader I → AnyInfo)
    (make_operation_state : Key → Key → I → AnyOperationState) where
  subscribe-returned :
      (source_id : Key) (source_info : I) (tenants : List Key) (r r' : OperationStateRegistry)
      → IsValid r.registry
      → subscribe wrap make_operation_state source_id source_info tenants r ≡ ok r'
      → Spawned
          (map (λ tenant_id. make_operation_state source_id tenant_id source_info) tenants)
          r
          r'
  unfolding subscribe
  subscribe-returned source_id source_info [] r r' h e =
      subst (Spawned [] r) (ok-injective e)
        (record { valid = h; grows = omega arith; spawns = sym (append-nil r.spawned) })
  subscribe-returned source_id source_info (tenant_id ∷ tenants) r r' h e =
      let value = make_operation_state source_id tenant_id source_info in
      let ((k, r₁), e₁, f₁) = >>=-ok (register_value value r) _ e in
      let s = register_value-returned value r h e₁ in
      Spawned-append s (subscribe-returned source_id source_info tenants r₁ r' s.valid f₁)

  -- If `load_into_application` returned, it has done with the entries what its theorem of totality
  -- says, even where there may be no room.
  pub load_into_application-returned :
      (entries : List (DataLoadEntry I)) (state state' : ApplicationState)
      → IsValid state.data_source_info_registry
      → IsValid state.data_source_operation_state_registry.registry
      → load_into_application wrap make_operation_state entries state ≡ ok state'
      → (ids : List Key) × Loaded wrap make_operation_state entries state ids state'
  unfolding load_into_application
  load_into_application-returned [] state state' h h' e = (
    [],
    subst (Loaded wrap make_operation_state [] state []) (ok-injective e)
        (Loaded-nil wrap make_operation_state state h h'),
  )
  load_into_application-returned (entry ∷ entries) state state' h h' e =
      let ((source_id, infos), e₁, f₁) =
        >>=-ok
          (Registry.register_value (wrap entry.source_info_with_header)
            state.data_source_info_registry)
          _ e in
      let s =
        register_value-Stored (wrap entry.source_info_with_header) state.data_source_info_registry h
          e₁ in
      let (registry, e₂, f₂) =
        >>=-ok
          (subscribe wrap make_operation_state source_id entry.source_info_with_header.source_info
            entry.subscribing_tenants state.data_source_operation_state_registry)
          _ f₁ in
      let t =
        subscribe-returned source_id entry.source_info_with_header.source_info
          entry.subscribing_tenants state.data_source_operation_state_registry registry h' e₂ in
      let (ids, l) =
        load_into_application-returned entries
          (record state {
            data_source_info_registry = infos;
            data_source_operation_state_registry = registry;
          })
          state' s.valid t.valid f₂ in
      (source_id ∷ ids, Loaded-cons wrap make_operation_state entry entries state state' s t l)
