-- ===== src/Main/Startup.antt =====
-- What src/main.cpp has set up when it comes to `ctx.run()`.
use feedback_ingest.Base.{
  ℕ, zero, suc, ◌≡◌, ◌≤◌, refl, sym, ◌∙◌, true, List, ok, Bytes, All, length, Outcome, arith,
  >>=-ok, ok-injective, traverse, traverse-All, some,
}
use mathlib.Core.Path.{subst}
use feedback_ingest.Base.Int.{ℤ, int_eq, int_max}
use feedback_ingest.Base.Dict
use feedback_ingest.Registry.{Key, get, has}
use feedback_ingest.Registry.Invariant.{empty-IsValid}
use feedback_ingest.Stream.{Stream, open_stream, extract_int, extract_word}
use feedback_ingest.FileOps.{FileSystem, sync_read_file_lines}
use feedback_ingest.Utils.{without_blank_lines}
use feedback_ingest.Tenant.{TenantRegistry, EntryMap, load_tenant_file}
use feedback_ingest.Tenant.Loaded.{IsLoaded, register_all_tenants_lem}
use feedback_ingest.DataSource.{
  InfoHeader, DataLoadEntry, initialised, rounds, read_tenants, with_lines,
}
use feedback_ingest.Discourse.{DiscourseInfo}
use feedback_ingest.Filepp.{FileppInfo}
use feedback_ingest.Notifyu.{NotifyuInfo}
use feedback_ingest.Discourse.Load as DiscourseLoad
use feedback_ingest.Filepp.Load as FileppLoad
use feedback_ingest.Notifyu.Load as NotifyuLoad
use feedback_ingest.Application.{
  AnyInfo, AnyOperationState, ApplicationState, InfoRegistry, load_from_file,
}
use feedback_ingest.Application.Tied.{AllTied, HasTenants, IsTied, load_into_application-AllTied}
use feedback_ingest.Main.{
  make_application_state, make_discourse_state, make_filepp_state, make_notifyu_state,
  load_discourse, load_filepp, load_notifyu, load_all, tenant_loader_path, discourse_loader_path,
  filepp_loader_path, notifyu_loader_path,
}

lookup_of_at :
    (i : ℤ) (k : Key) (m : EntryMap) → Dict.lookup_at i m ≡ ok k → Dict.lookup i m ≡ some k
unfolding Dict.lookup_at
lookup_of_at i k m e = ground arith

module _ (m : EntryMap) (tenants : TenantRegistry) (h : IsLoaded m tenants) where
  live_of_at : (i : ℤ) (k : Key) → Dict.lookup_at i m ≡ ok k → has k tenants ≡ true
  live_of_at i k e = h.live i k (lookup_of_at i k m e)

  read_tenants-live :
      (n : ℕ) (stream : Stream) (ks : List Key)
      → read_tenants n m stream ≡ ok ks
      → All (λ t. has t tenants ≡ true) ks
  unfolding read_tenants
  read_tenants-live zero stream ks e = subst (All (λ t. has t tenants ≡ true)) (ok-injective e) tt
  read_tenants-live (suc n) stream ks e =
      let (x, e₁, f₁) = >>=-ok (initialised (extract_int stream).0) _ e in
      let (k, e₂, f₂) = >>=-ok (Dict.lookup_at x m) _ f₁ in
      let (rest, e₃, f₃) = >>=-ok (read_tenants n m (extract_int stream).1) _ f₂ in
      subst (All (λ t. has t tenants ≡ true)) (ok-injective f₃)
        (live_of_at x k e₂, read_tenants-live n (extract_int stream).1 rest e₃)

  discourse-HasTenants :
      (line : Bytes) (entry : DataLoadEntry DiscourseInfo)
      → DiscourseLoad.get_loader_entry m line ≡ ok entry
      → HasTenants tenants entry
  unfolding DiscourseLoad.get_loader_entry
  discourse-HasTenants line entry e =
      let s₁ = (extract_word (open_stream line)).1 in
      let s₂ = (extract_int s₁).1 in
      let (n, e₁, f₁) = >>=-ok (initialised (extract_int s₂).0) _ e in
      let (ks, e₂, f₂) = >>=-ok (read_tenants (rounds n) m (extract_int s₂).1) _ f₁ in
      let (topic, e₃, f₃) = >>=-ok (initialised (extract_int s₁).0) _ f₂ in
      subst (HasTenants tenants) (ok-injective f₃)
        (read_tenants-live (rounds n) (extract_int s₂).1 ks e₂)

  filepp-HasTenants :
      (line : Bytes) (entry : DataLoadEntry FileppInfo)
      → FileppLoad.get_loader_entry m line ≡ ok entry
      → HasTenants tenants entry
  unfolding FileppLoad.get_loader_entry
  filepp-HasTenants line entry e =
      let s₂ = (extract_word (extract_word (open_stream line)).1).1 in
      let (n, e₁, f₁) = >>=-ok (initialised (extract_int s₂).0) _ e in
      let (ks, e₂, f₂) = >>=-ok (read_tenants (rounds n) m (extract_int s₂).1) _ f₁ in
      subst (HasTenants tenants) (ok-injective f₂)
        (read_tenants-live (rounds n) (extract_int s₂).1 ks e₂)

  notifyu-HasTenants :
      (line : Bytes) (entry : DataLoadEntry NotifyuInfo)
      → NotifyuLoad.get_loader_entry m line ≡ ok entry
      → HasTenants tenants entry
  unfolding NotifyuLoad.get_loader_entry
  notifyu-HasTenants line entry e =
      let s₂ = (extract_word (extract_word (open_stream line)).1).1 in
      let (i, e₁, f₁) = >>=-ok (initialised (extract_int s₂).0) _ e in
      let (k, e₂, f₂) = >>=-ok (Dict.lookup_at i m) _ f₁ in
      subst (HasTenants tenants) (ok-injective f₂) (live_of_at i k e₂, tt)

-- A file of one kind of source.
load_from_file-AllTied :
    {I : Type 0} (wrap : InfoHeader I → AnyInfo)
    (make_operation_state : Key → Key → I → AnyOperationState) (F : FileSystem) (files : F.State)
    (path : Bytes) (m : EntryMap) (get_loader_entry : EntryMap → Bytes → Outcome (DataLoadEntry I))
    (state state' : ApplicationState)
    → ((tenants : TenantRegistry) (infos : InfoRegistry) (id t : Key) (h : InfoHeader I)
        → has t tenants ≡ true
        → get id infos ≡ ok (wrap h)
        → IsTied tenants infos (make_operation_state id t h.source_info))
    → ((line : Bytes) (entry : DataLoadEntry I)
        → get_loader_entry m line ≡ ok entry
        → HasTenants state.tenant_registry entry)
    → AllTied state
    → load_from_file wrap make_operation_state F files path m (with_lines get_loader_entry) state
      ≡ ok state'
    → AllTied state' × (state'.tenant_registry ≡ state.tenant_registry)
unfolding load_from_file with_lines
load_from_file-AllTied wrap make_operation_state F files path m get_loader_entry state state' tied
      lives h e =
    let lines = without_blank_lines (sync_read_file_lines F files path) in
    let (entries, e₁, f₁) = >>=-ok (traverse (get_loader_entry m) lines) _ e in
    load_into_application-AllTied wrap make_operation_state tied entries state state' h
      (traverse-All (HasTenants state.tenant_registry) (get_loader_entry m) lives lines entries
        e₁).0
      f₁

module _ (F : FileSystem) (files : F.State) (m : EntryMap) (state state' : ApplicationState)
    (loaded : IsLoaded m state.tenant_registry) (h : AllTied state) where
  load_discourse-AllTied :
      (path : Bytes)
      → load_discourse F files path m state ≡ ok state'
      → AllTied state' × (state'.tenant_registry ≡ state.tenant_registry)
  unfolding load_discourse make_discourse_state DiscourseLoad.make_loader_entries
  load_discourse-AllTied path e =
      load_from_file-AllTied AnyInfo.discourse make_discourse_state F files path m
        DiscourseLoad.get_loader_entry state state'
        (λ tenants infos id t header live found. (live, (header.name, found)))
        (discourse-HasTenants m state.tenant_registry loaded) h e

  load_filepp-AllTied :
      (path : Bytes)
      → load_filepp F files path m state ≡ ok state'
      → AllTied state' × (state'.tenant_registry ≡ state.tenant_registry)
  unfolding load_filepp make_filepp_state FileppLoad.make_loader_entries
  load_filepp-AllTied path e =
      load_from_file-AllTied AnyInfo.filepp make_filepp_state F files path m
        FileppLoad.get_loader_entry state state'
        (λ tenants infos id t header live found. (live, (header.name, found)))
        (filepp-HasTenants m state.tenant_registry loaded) h e

  load_notifyu-AllTied :
      (path : Bytes)
      → load_notifyu F files path m state ≡ ok state'
      → AllTied state' × (state'.tenant_registry ≡ state.tenant_registry)
  unfolding load_notifyu make_notifyu_state NotifyuLoad.make_loader_entries
  load_notifyu-AllTied path e =
      load_from_file-AllTied AnyInfo.notifyu make_notifyu_state F files path m
        NotifyuLoad.get_loader_entry state state'
        (λ tenants infos id t header live found. (live, (header.name, found)))
        (notifyu-HasTenants m state.tenant_registry loaded) h e

-- Whatever the loader files hold, if the tenant file has at most 2^31 - 1 lines and the set-up is
-- done without an exception, every operation state that was spawned belongs to a tenant of the
-- registry, its source id has the header of its own source, and the server has no route yet.
pub load_all-AllTied :
    (F : FileSystem) (files : F.State) (state : ApplicationState)
    → length (sync_read_file_lines F files tenant_loader_path) ≤ int_max
    → load_all F files ≡ ok state
    → AllTied state
unfolding load_all load_tenant_file
load_all-AllTied F files state room e =
    let (m₀, reg₀, e₀, l₀, _, _) =
      register_all_tenants_lem make_application_state.tenant_registry
        (sync_read_file_lines F files tenant_loader_path) empty-IsValid (omega (arith, room)) in
    let ((m, reg), eₜ, f₀) =
      >>=-ok (load_tenant_file F files tenant_loader_path make_application_state.tenant_registry) _
        e in
    let loaded : IsLoaded m reg =
      subst (λ (t : EntryMap × TenantRegistry). IsLoaded t.0 t.1) (ok-injective (sym e₀ ∙ eₜ)) l₀ in
    let s₀ : ApplicationState = record make_application_state { tenant_registry = reg } in
    let start : AllTied s₀ = record {
      tenants = loaded.valid;
      infos = empty-IsValid;
      operations = empty-IsValid;
      tied = tt;
      routes = refl;
    } in
    let (s₁, e₁, f₁) = >>=-ok (load_discourse F files discourse_loader_path m s₀) _ f₀ in
    let (h₁, t₁) = load_discourse-AllTied F files m s₀ s₁ loaded start discourse_loader_path e₁ in
    let loaded₁ = subst (IsLoaded m) (sym t₁) loaded in
    let (s₂, e₂, f₂) = >>=-ok (load_filepp F files filepp_loader_path m s₁) _ f₁ in
    let (h₂, t₂) = load_filepp-AllTied F files m s₁ s₂ loaded₁ h₁ filepp_loader_path e₂ in
    (load_notifyu-AllTied F files m s₂ state (subst (IsLoaded m) (sym t₂) loaded₁) h₂
      notifyu_loader_path f₂).0
