-- ===== src/Main/Isolation.antt =====
-- What the whole of src/main.cpp does to the world, whatever the order in which its coroutines run.
use feedback_ingest.Base.{
  ℕ, ◌≡◌, ◌≤◌, true, arith, List, [], ◌∷◌, map, ok, Bytes, All, All-append, length,
}
use feedback_ingest.Base.Int.{ℤ, pos, negsuc, int_max}
use feedback_ingest.Schema.{Schema}
use feedback_ingest.Schema.Stamp.{IsStamped}
use feedback_ingest.Serializer.{serialize_to_json}
use feedback_ingest.Stream.Ints.{IsInt}
use feedback_ingest.Registry.{Key, InMemoryRegistry, has}
use feedback_ingest.Registry.Invariant.{IsValid, Issued}
use feedback_ingest.Registry.Keys.{present_of_has, has_of_get}
use feedback_ingest.Tenant.{TenantRegistry}
use feedback_ingest.Base.Dict
use feedback_ingest.Platform.{Platform}
use feedback_ingest.FileOps.{FileSystem, sync_read_file_lines}
use feedback_ingest.Effects.{Command, write_output}
use feedback_ingest.Sink.{json_sink, schema_base_path, create_json_file_name}
use feedback_ingest.Sink.Names.{create_json_file_name-injective}
use feedback_ingest.Timer.{execute_every}
use feedback_ingest.Server.{RestServer, find_handler, rest_server, start_server}
use feedback_ingest.Application.{
  AnyOperationState, ApplicationState, InfoRegistry, source_id_of, tenant_id_of, start,
}
use feedback_ingest.Application.Tied.{AllTied, IsTied}
use feedback_ingest.System.{Running, Step, Reach}
use feedback_ingest.System.Duties.{Allowed, IsOwnedText}
use feedback_ingest.System.Storing.{KeepsDuties}
use feedback_ingest.System.Sources.{start-KeepsDuties}
use feedback_ingest.System.Serving.{start_server-KeepsDuties}
use feedback_ingest.System.Runs.{AllServed, Holds, Step-Holds, Reach-Holds}
use feedback_ingest.Main.{coroutines, load_all, tenant_loader_path}
use feedback_ingest.Main.Startup.{load_all-AllTied}

-- What `ctx.run()` finds.
abbrev pub running : (P : Platform) → ℕ → ApplicationState → Running P
running P n state = record { coroutines = coroutines P n state; server = state.server }

module _ (P : Platform) (S : AnyOperationState → Type 0) (n port : ℕ) where
  all_start-KeepsDuties :
      (os : List AnyOperationState)
      → All S os
      → All
          (KeepsDuties P S)
          (map (start P (json_sink P) (execute_every P n) (rest_server P (json_sink P) n port)) os)
  all_start-KeepsDuties [] _ = tt
  all_start-KeepsDuties (o ∷ os) (h, hs) =
      (start-KeepsDuties P S n port o h, all_start-KeepsDuties os hs)

module _ (P : Platform) (S : AnyOperationState → Type 0) (n : ℕ) where
  coroutines-KeepsDuties :
      (state : ApplicationState)
      → All S state.data_source_operation_state_registry.spawned
      → All (KeepsDuties P S) (coroutines P n state)
  unfolding coroutines start_server
  coroutines-KeepsDuties state h =
      All-append (KeepsDuties P S)
        (map
          (start P (json_sink P) (execute_every P n)
            (rest_server P (json_sink P) n state.server.port))
          state.data_source_operation_state_registry.spawned)
        (start_server P (json_sink P) n state.server.port ∷ [])
        (all_start-KeepsDuties P S n state.server.port
          state.data_source_operation_state_registry.spawned h)
        (start_server-KeepsDuties P S n state.server.port, tt)

  no_routes-AllServed : (server : RestServer) → server.route_handlers ≡ [] → AllServed P S server
  unfolding find_handler Dict.lookup
  no_routes-AllServed server e target = rw e tt

pub running-Holds :
    (P : Platform) (n : ℕ) (state : ApplicationState)
    → AllTied state
    → Holds P (IsTied state.tenant_registry state.data_source_info_registry) (running P n state)
running-Holds P n state h =
    let S = IsTied state.tenant_registry state.data_source_info_registry in
    record {
      keeps = coroutines-KeepsDuties P S n state h.tied;
      serves = no_routes-AllServed P S n state.server h.routes;
    }

-- If the set-up is done, and the tenant file has at most 2^31 - 1 lines, then in every run, in any
-- order and with any answers, each command keeps to what was registered: a file or directory is that
-- of a registered source and tenant, and a text that is written whole is the JSON of schemas with
-- their ids, a file that is read is the input of such a source, a route is registered by its own source
-- under its own path, a response is one of the three, and a host that is resolved and a request that
-- is written are those of a URL of a search or of posts of the topic of a registered discourse
-- source.
pub load_all-Allowed :
    (P : Platform) (F : FileSystem) (files : F.State) (state : ApplicationState) (n : ℕ)
    (s t : Running P) (c : Command P)
    → length (sync_read_file_lines F files tenant_loader_path) ≤ int_max
    → load_all F files ≡ ok state
    → Reach P (json_sink P) (running P n state) s
    → Step P (json_sink P) s c t
    → Allowed P (IsTied state.tenant_registry state.data_source_info_registry) c
load_all-Allowed P F files state n s t c room e reached move =
    let S = IsTied state.tenant_registry state.data_source_info_registry in
    (Step-Holds P S
      (Reach-Holds P S (running-Holds P n state (load_all-AllTied F files state room e)) reached)
      move).0

Issued-IsInt : (n : ℕ) (k : Key) → n ≤ int_max → Issued n k → IsInt k
Issued-IsInt n (pos m) h issued = omega arith
Issued-IsInt n (negsuc m) h issued = absurd issued

has-IsInt : {V : Type 0} (r : InMemoryRegistry V) (k : Key) → IsValid r → has k r ≡ true → IsInt k
has-IsInt r k h there = Issued-IsInt h.bound k h.fits (h.issued k (present_of_has r k there))

-- Of an operation state that is tied, the source and the tenant are in the registries.
IsTied-registered :
    (tenants : TenantRegistry) (infos : InfoRegistry) (o : AnyOperationState)
    → IsTied tenants infos o
    → (has (source_id_of o) infos ≡ true) × (has (tenant_id_of o) tenants ≡ true)
IsTied-registered tenants infos (AnyOperationState.discourse self) (live, (name, e)) =
    (has_of_get infos self.source_id _ e, live)
IsTied-registered tenants infos (AnyOperationState.filepp self) (live, (name, e)) =
    (has_of_get infos self.source_id _ e, live)
IsTied-registered tenants infos (AnyOperationState.notifyu self) (live, (name, e)) =
    (has_of_get infos self.source_id _ e, live)

-- The text is the JSON of schemas that carry the source and the tenant, and both are registered.
pub record IsOwnText (P : Platform) (state : ApplicationState) (source tenant : Key) (text : Bytes)
    : Type 0 where
  pub source_registered : has source state.data_source_info_registry ≡ true
  pub tenant_registered : has tenant state.tenant_registry ≡ true
  pub schemas : List (Schema P.json.Real)
  pub stamped : All (IsStamped source tenant) schemas
  pub json : P.json.Json
  pub serialized : serialize_to_json P.json schemas ≡ ok json
  pub dumped : P.json.dump json ≡ ok text

IsOwnedText-IsOwnText :
    (P : Platform) (state : ApplicationState)
    → AllTied state
    → (time : ℤ) (source tenant : Key) (text : Bytes) → IsInt source
    → IsInt tenant
    → IsOwnedText P
        (IsTied state.tenant_registry state.data_source_info_registry)
        (create_json_file_name schema_base_path time source tenant)
        text
    → IsOwnText P state source tenant text
IsOwnedText-IsOwnText P state h time source tenant text s n
      (o, there, t, e, schemas, stamped, j, serialized, dumped) =
    let (has_source, has_tenant) = IsTied-registered state.tenant_registry _ o there in
    let (same_source, same_tenant, _) =
      create_json_file_name-injective schema_base_path time (P.count t) source (source_id_of o)
        tenant (tenant_id_of o) s (has-IsInt _ (source_id_of o) h.infos has_source) n
        (has-IsInt _ (tenant_id_of o) h.tenants has_tenant) e in
    record {
      source_registered = rw same_source has_source;
      tenant_registered = rw same_tenant has_tenant;
      schemas = schemas;
      stamped = rw (same_source, same_tenant) stamped;
      json = j;
      serialized = serialized;
      dumped = dumped;
    }

-- If the set-up is done, and the tenant file has at most 2^31 - 1 lines, then in every run of the
-- coroutines, in any order and with any answers, each text that is written whole to a file that has
-- the name for a source and a tenant, whose ids fit an `int`, is the JSON of schemas that all carry this source and
-- this tenant, and both are registered.
pub load_all-IsOwnText :
    (P : Platform) (F : FileSystem) (files : F.State) (state : ApplicationState) (n : ℕ)
    (s t : Running P) (time : ℤ) (source tenant : Key) (text : Bytes)
    → length (sync_read_file_lines F files tenant_loader_path) ≤ int_max
    → load_all F files ≡ ok state
    → Reach P (json_sink P) (running P n state) s
    → Step P
        (json_sink P)
        s
        (write_output (create_json_file_name schema_base_path time source tenant) text)
        t
    → IsInt source
    → IsInt tenant
    → IsOwnText P state source tenant text
load_all-IsOwnText P F files state n s t time source tenant text room e reached move hs hn =
    IsOwnedText-IsOwnText P state (load_all-AllTied F files state room e) time source tenant text hs
      hn (load_all-Allowed P F files state n s t _ room e reached move)
