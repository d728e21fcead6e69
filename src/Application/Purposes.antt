-- ===== src/Application/Purposes.antt =====
-- The operation states after the loading of files that show their sources (`load_from_file` and
-- `load_into_application` of include/data_source/data_source_loader.hpp).
use feedback_ingest.Base.{
  ℕ, ◌+◌, ◌≤◌, ◌≡◌, refl, ap, sym, ◌∙◌, arith, true, Option, List, [], ◌∷◌, ◌++◌, map, ok, some,
  Bytes, All, AllPairs, length, length-append, length-map, Outcome,
}
use feedback_ingest.Base.{AllPairs-append, AllPairs-map, AllPairs-length}
use feedback_ingest.Base.Int.{ℤ, int_max}
use feedback_ingest.Registry.{Key, get, has}
use feedback_ingest.Registry.Invariant.{IsValid}
use feedback_ingest.Registry.Keys.{has_of_get}
use feedback_ingest.FileOps.{FileSystem}
use feedback_ingest.FileOps.Lines.{unlines}
use feedback_ingest.FileOps.Shown.{sync_read_file_lines_shown, shown_lines-kept}
use feedback_ingest.Stream.Shown.{IsKept}
use feedback_ingest.Tenant.{TenantInfo, TenantRegistry, EntryMap}
use feedback_ingest.Tenant.Loaded.{of_get, tenant_of}
use feedback_ingest.DataSource.{InfoHeader, DataLoadEntry, with_lines}
use feedback_ingest.DataSource.Tenants.{find_tenants}
use feedback_ingest.Application.{
  AnyInfo, AnyOperationState, ApplicationState, InfoRegistry, load_from_file,
}
use feedback_ingest.Application.Loading.{
  Loaded, operations_of, subscriptions, load_into_application_lem,
}
use feedback_ingest.Application.Shown.{
  SourceRow, Purpose, IsFor, IsKnown, IsKeyOf, IsEntryOf, traverse_shown,
}

-- The purposes of a source for some numbers, when `tenant` tells their tenants.
abbrev pub purposes_of_one : (ℤ → Option TenantInfo) → AnyInfo → List ℤ → List Purpose
purposes_of_one tenant info is = map (λ i. (info, tenant i)) is

abbrev pub purposes_of :
    {I : Type 0}
    → (InfoHeader I → AnyInfo)
    → (ℤ → Option TenantInfo)
    → List (SourceRow I)
    → List Purpose
purposes_of wrap tenant [] = []
purposes_of wrap tenant ((h, is) ∷ rows) =
    purposes_of_one tenant (wrap h) is ++ purposes_of wrap tenant rows

-- The registries are valid and hold `sources` headers, and the spawned operation states are for
-- `purposes`, in this order.
pub record Serving (tenants : TenantRegistry) (sources : ℕ) (purposes : List Purpose)
    (state : ApplicationState) : Type 0 where
  pub same_tenants : state.tenant_registry ≡ tenants
  pub infos : IsValid state.data_source_info_registry
  pub operations : IsValid state.data_source_operation_state_registry.registry
  pub info_count : length state.data_source_info_registry.registry ≡ sources
  pub operation_count :
      length state.data_source_operation_state_registry.registry.registry ≡ length purposes
  pub spawned :
      AllPairs
        (IsFor tenants state.data_source_info_registry)
        state.data_source_operation_state_registry.spawned
        purposes

IsFor-kept :
    (tenants : TenantRegistry) (before after : InfoRegistry)
    → ((id : Key) → has id before ≡ true → get id after ≡ get id before)
    → (o : AnyOperationState) (p : Purpose) → IsFor tenants before o p
    → IsFor tenants after o p
IsFor-kept tenants before after kept o (info, t) (found, own, carried) =
    (kept _ (has_of_get before _ info found) ∙ found, own, carried)

module _ {I : Type 0} (wrap : InfoHeader I → AnyInfo)
    (make_operation_state : Key → Key → I → AnyOperationState) (m : EntryMap)
    (tenants : TenantRegistry)
    (makes : (infos : InfoRegistry) (id k : Key) (h : InfoHeader I) (t : Option TenantInfo)
      → get id infos ≡ ok (wrap h)
      → of_get (get k tenants) ≡ t
      → IsFor tenants infos (make_operation_state id k h.source_info) (wrap h, t)) where
  one_source-IsFor :
      (infos : InfoRegistry) (id : Key) (h : InfoHeader I) (is : List ℤ) (ks : List Key)
      → get id infos ≡ ok (wrap h)
      → AllPairs (IsKeyOf m tenants) is ks
      → AllPairs
          (IsFor tenants infos)
          (map (λ k. make_operation_state id k h.source_info) ks)
          (purposes_of_one (tenant_of m tenants) (wrap h) is)
  one_source-IsFor infos id h [] [] e _ = tt
  one_source-IsFor infos id h [] (k ∷ ks) e p = elim p [ ]
  one_source-IsFor infos id h (i ∷ is) [] e p = elim p [ ]
  one_source-IsFor infos id h (i ∷ is) (k ∷ ks) e (p, ps) =
      (makes infos id k h _ e p, one_source-IsFor infos id h is ks e ps)

  operations_of-IsFor :
      (infos : InfoRegistry) (rows : List (SourceRow I)) (entries : List (DataLoadEntry I))
      (ids : List Key)
      → AllPairs (IsEntryOf m tenants) rows entries
      → AllPairs (λ entry id. get id infos ≡ ok (wrap entry.source_info_with_header)) entries ids
      → AllPairs
          (IsFor tenants infos)
          (operations_of wrap make_operation_state entries ids)
          (purposes_of wrap (tenant_of m tenants) rows)
  operations_of-IsFor infos [] [] [] _ _ = tt
  operations_of-IsFor infos [] [] (id ∷ ids) _ p = elim p [ ]
  operations_of-IsFor infos [] (entry ∷ entries) ids p _ = elim p [ ]
  operations_of-IsFor infos (row ∷ rows) [] ids p _ = elim p [ ]
  operations_of-IsFor infos (row ∷ rows) (entry ∷ entries) [] _ p = elim p [ ]
  operations_of-IsFor infos ((h, is) ∷ rows) (entry ∷ entries) (id ∷ ids) ((same, own), owns)
        (found, founds) =
      AllPairs-append (IsFor tenants infos) _ (operations_of wrap make_operation_state entries ids)
        _ (purposes_of wrap (tenant_of m tenants) rows)
        (rw (ap (λ (g : InfoHeader I). g.source_info) same)
          (one_source-IsFor infos id h is entry.subscribing_tenants (rw (sym same) found) own))
        (operations_of-IsFor infos rows entries ids owns founds)

  subscriptions-purposes_of :
      (rows : List (SourceRow I)) (entries : List (DataLoadEntry I))
      → AllPairs (IsEntryOf m tenants) rows entries
      → subscriptions entries ≡ length (purposes_of wrap (tenant_of m tenants) rows)
  subscriptions-purposes_of [] [] _ = refl
  subscriptions-purposes_of [] (entry ∷ entries) p = elim p [ ]
  subscriptions-purposes_of (row ∷ rows) [] p = elim p [ ]
  subscriptions-purposes_of ((h, is) ∷ rows) (entry ∷ entries) ((same, own), owns) = omega (
    arith,
    subscriptions-purposes_of rows entries owns,
    AllPairs-length (IsKeyOf m tenants) is entry.subscribing_tenants own,
    length-append (purposes_of_one (tenant_of m tenants) (wrap h) is)
        (purposes_of wrap (tenant_of m tenants) rows),
    length-map {B = Purpose} is (λ i. (wrap h, tenant_of m tenants i)),
  )

  Loaded-Serving :
      (rows : List (SourceRow I)) (entries : List (DataLoadEntry I)) (ids : List Key) (sources : ℕ)
      (purposes : List Purpose) (state state' : ApplicationState)
      → AllPairs (IsEntryOf m tenants) rows entries
      → Serving tenants sources purposes state
      → Loaded wrap make_operation_state entries state ids state'
      → Serving tenants
          (sources + length rows)
          (purposes ++ purposes_of wrap (tenant_of m tenants) rows)
          state'
  Loaded-Serving rows entries ids sources purposes state state' own s l =
      let infos = state'.data_source_info_registry in
      let more = operations_of-IsFor infos rows entries ids own l.reads in
      record {
        same_tenants = l.tenants ∙ s.same_tenants;
        infos = l.valid;
        operations = l.operations.valid;
        info_count =
            omega (
              arith,
              l.grows,
              s.info_count,
              AllPairs-length (IsEntryOf m tenants) rows entries own,
            );
        operation_count = omega (
          arith,
          l.operations.grows,
          s.operation_count,
          AllPairs-length (IsFor tenants infos)
              (operations_of wrap make_operation_state entries ids)
              (purposes_of wrap (tenant_of m tenants) rows) more,
          length-append purposes (purposes_of wrap (tenant_of m tenants) rows),
        );
        spawned = rw l.operations.spawns (
            AllPairs-append (IsFor tenants infos) state.data_source_operation_state_registry.spawned
              (operations_of wrap make_operation_state entries ids) purposes
              (purposes_of wrap (tenant_of m tenants) rows)
              (AllPairs-map (IsFor tenants state.data_source_info_registry) (IsFor tenants infos)
                (IsFor-kept tenants state.data_source_info_registry infos l.kept)
                state.data_source_operation_state_registry.spawned purposes s.spawned)
              more);
      }

  module _ (line : SourceRow I → Bytes) (IsFine : SourceRow I → Type 0)
      (kept : (row : SourceRow I) → IsFine row → IsKept (line row))
      (get_loader_entry : EntryMap → Bytes → Outcome (DataLoadEntry I))
      (reads : (row : SourceRow I) (ks : List Key)
        → IsFine row
        → find_tenants m row.1 ≡ ok ks
        → get_loader_entry m (line row)
          ≡ ok (record { source_info_with_header = row.0; subscribing_tenants = ks })) where
    -- A file that shows rows whose tenants are known is loaded, where there is room: each row adds
    -- one operation state for each of its tenants.
    pub load_from_file-Serving :
        (F : FileSystem) (files : F.State) (path : Bytes) (rows : List (SourceRow I)) (sources : ℕ)
        (purposes : List Purpose) (state : ApplicationState)
        → All IsFine rows
        → All (λ row. All (IsKnown m tenants) row.1) rows
        → F.read files path ≡ some (unlines (map line rows))
        → sources + length rows ≤ int_max
        → length purposes + length (purposes_of wrap (tenant_of m tenants) rows) ≤ int_max
        → Serving tenants sources purposes state
        → (state' : ApplicationState) × (load_from_file wrap make_operation_state F files path m
              (with_lines get_loader_entry)
              state
            ≡ ok state')
          × Serving tenants
              (sources + length rows)
              (purposes ++ purposes_of wrap (tenant_of m tenants) rows)
              state'
    unfolding load_from_file with_lines
    load_from_file-Serving F files path rows sources purposes state fine known e room room' s =
        let (entries, read, own) =
          traverse_shown m tenants line IsFine (get_loader_entry m) reads rows fine known in
        let (ids, state', done, l) =
          load_into_application_lem wrap make_operation_state entries state s.infos
            (omega
              (arith, room, s.info_count, AllPairs-length (IsEntryOf m tenants) rows entries own))
            s.operations
            (omega (arith, room', s.operation_count, subscriptions-purposes_of rows entries own)) in
        (
          state',
          rw
              (
                sync_read_file_lines_shown line IsFine kept F files path rows fine e,
                shown_lines-kept line IsFine kept rows fine,
                read,
              )
              done,
          Loaded-Serving rows entries ids sources purposes state state' own s l,
        )
