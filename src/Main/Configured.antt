-- ===== src/Main/Configured.antt =====
-- The set-up of src/main.cpp on loader files that show a configuration.
use feedback_ingest.Base.{
  ℕ, ◌+◌, ◌≤◌, ◌≡◌, refl, sym, arith, Option, none, some, List, [], ◌++◌, map, ok, All, AllPairs,
  length, length-append, Outcome,
}
use feedback_ingest.Base.Int.{ℤ, int_max}
use mathlib.Core.Path.{subst, fun_ext}
use feedback_ingest.Registry.Invariant.{empty-IsValid}
use feedback_ingest.FileOps.{FileSystem}
use feedback_ingest.FileOps.Lines.{unlines}
use feedback_ingest.Tenant.{TenantInfo, TenantRegistry, EntryMap}
use feedback_ingest.Tenant.Loaded.{tenant_of}
use feedback_ingest.Tenant.Shown.{TenantRow, IsTenantRow, row_line, named, load_tenant_file_shown}
use feedback_ingest.DataSource.{InfoHeader}
use feedback_ingest.Discourse.{DiscourseInfo}
use feedback_ingest.Filepp.{FileppInfo}
use feedback_ingest.Notifyu.{NotifyuInfo}
use feedback_ingest.Discourse.Load as DiscourseLoad
use feedback_ingest.Filepp.Load as FileppLoad
use feedback_ingest.Notifyu.Load as NotifyuLoad
use feedback_ingest.Application.{AnyInfo, ApplicationState}
use feedback_ingest.Application.Shown.{SourceRow, Purpose, IsFor}
use feedback_ingest.Application.Purposes.{purposes_of, Serving, load_from_file-Serving}
use feedback_ingest.Main.{
  make_application_state, make_discourse_state, make_filepp_state, make_notifyu_state,
  load_discourse, load_filepp, load_notifyu, load_all, tenant_loader_path, discourse_loader_path,
  filepp_loader_path, notifyu_loader_path,
}
use feedback_ingest.Main.Rows.{
  discourse_row_line, IsDiscourseRow, discourse_row_line-IsKept, discourse_row_line-read,
  filepp_row_line, IsFileppRow, filepp_row_line-IsKept, filepp_row_line-read, notifyu_row_line,
  IsNotifyuRow, notifyu_row_line-IsKept, notifyu_row_line-read,
}

-- The tenants and the sources that the loader files list.
pub record Configuration : Type 0 where
  pub tenants : List TenantRow
  pub discourse_rows : List (SourceRow DiscourseInfo)
  pub filepp_rows : List (SourceRow FileppInfo)
  pub notifyu_rows : List (SourceRow NotifyuInfo)

-- The tenant of a number.
abbrev pub tenant_named : Configuration → ℤ → Option TenantInfo
tenant_named c i = named i c.tenants none

-- What the operation states are to be for, in the order of their start.
abbrev pub purposes : (ℤ → Option TenantInfo) → Configuration → List Purpose
purposes tenant c =
    (purposes_of AnyInfo.discourse tenant c.discourse_rows
      ++ purposes_of AnyInfo.filepp tenant c.filepp_rows)
    ++ purposes_of AnyInfo.notifyu tenant c.notifyu_rows

abbrev pub AreKnown : {I : Type 0} → (ℤ → Option TenantInfo) → List (SourceRow I) → Type 0
AreKnown tenant = All (λ row. All (λ i. (t : TenantInfo) × (tenant i ≡ some t)) row.1)

-- The texts are words and the numbers fit an `int`, each number of a tenant is that of a row, and
-- the registries have room.
pub record IsSound (c : Configuration) : Type 0 where
  pub tenants : All IsTenantRow c.tenants
  pub discourse_rows : All IsDiscourseRow c.discourse_rows
  pub filepp_rows : All IsFileppRow c.filepp_rows
  pub notifyu_rows : All IsNotifyuRow c.notifyu_rows
  pub known_discourse : AreKnown (tenant_named c) c.discourse_rows
  pub known_filepp : AreKnown (tenant_named c) c.filepp_rows
  pub known_notifyu : AreKnown (tenant_named c) c.notifyu_rows
  pub tenant_room : length c.tenants ≤ int_max
  pub source_room :
      (length c.discourse_rows + length c.filepp_rows) + length c.notifyu_rows ≤ int_max
  pub operation_room : length (purposes (tenant_named c) c) ≤ int_max

-- The loader files show the configuration.
pub record AreLoaderFiles (F : FileSystem) (files : F.State) (c : Configuration) : Type 0 where
  pub tenants : F.read files tenant_loader_path ≡ some (unlines (map row_line c.tenants))
  pub discourse_rows :
      F.read files discourse_loader_path ≡ some (unlines (map discourse_row_line c.discourse_rows))
  pub filepp_rows :
      F.read files filepp_loader_path ≡ some (unlines (map filepp_row_line c.filepp_rows))
  pub notifyu_rows :
      F.read files notifyu_loader_path ≡ some (unlines (map notifyu_row_line c.notifyu_rows))

-- One file after another: the rows of each add their purposes.
module _ (F : FileSystem) (files : F.State) (m : EntryMap) (tenants : TenantRegistry) (sources : ℕ)
    (done : List Purpose) (state : ApplicationState)
    (serving : Serving tenants sources done state) where
  abbrev Adds :
      {I : Type 0}
      → (InfoHeader I → AnyInfo)
      → List (SourceRow I)
      → Outcome ApplicationState
      → Type 0
  Adds wrap rows result =
      (state' : ApplicationState) × (result ≡ ok state')
      × Serving tenants (sources + length rows)
          (done ++ purposes_of wrap (tenant_of m tenants) rows) state'

  load_discourse-Adds :
      (rows : List (SourceRow DiscourseInfo))
      → All IsDiscourseRow rows
      → AreKnown (tenant_of m tenants) rows
      → F.read files discourse_loader_path ≡ some (unlines (map discourse_row_line rows))
      → sources + length rows ≤ int_max
      → length done + length (purposes_of AnyInfo.discourse (tenant_of m tenants) rows) ≤ int_max
      → Adds AnyInfo.discourse rows (load_discourse F files discourse_loader_path m state)
  unfolding load_discourse make_discourse_state DiscourseLoad.make_loader_entries
  load_discourse-Adds rows fine known e room room' =
      load_from_file-Serving AnyInfo.discourse make_discourse_state m tenants
        (λ infos id k h t found own. (found, own, refl)) discourse_row_line IsDiscourseRow
        discourse_row_line-IsKept DiscourseLoad.get_loader_entry (discourse_row_line-read m) F files
        discourse_loader_path rows sources done state fine known e room room' serving

  load_filepp-Adds :
      (rows : List (SourceRow FileppInfo))
      → All IsFileppRow rows
      → AreKnown (tenant_of m tenants) rows
      → F.read files filepp_loader_path ≡ some (unlines (map filepp_row_line rows))
      → sources + length rows ≤ int_max
      → length done + length (purposes_of AnyInfo.filepp (tenant_of m tenants) rows) ≤ int_max
      → Adds AnyInfo.filepp rows (load_filepp F files filepp_loader_path m state)
  unfolding load_filepp make_filepp_state FileppLoad.make_loader_entries
  load_filepp-Adds rows fine known e room room' =
      load_from_file-Serving AnyInfo.filepp make_filepp_state m tenants
        (λ infos id k h t found own. (found, own, refl)) filepp_row_line IsFileppRow
        filepp_row_line-IsKept FileppLoad.get_loader_entry (filepp_row_line-read m) F files
        filepp_loader_path rows sources done state fine known e room room' serving

  load_notifyu-Adds :
      (rows : List (SourceRow NotifyuInfo))
      → All IsNotifyuRow rows
      → AreKnown (tenant_of m tenants) rows
      → F.read files notifyu_loader_path ≡ some (unlines (map notifyu_row_line rows))
      → sources + length rows ≤ int_max
      → length done + length (purposes_of AnyInfo.notifyu (tenant_of m tenants) rows) ≤ int_max
      → Adds AnyInfo.notifyu rows (load_notifyu F files notifyu_loader_path m state)
  unfolding load_notifyu make_notifyu_state NotifyuLoad.make_loader_entries
  load_notifyu-Adds rows fine known e room room' =
      load_from_file-Serving AnyInfo.notifyu make_notifyu_state m tenants
        (λ infos id k h t found own. (found, own, refl)) notifyu_row_line IsNotifyuRow
        notifyu_row_line-IsKept NotifyuLoad.get_loader_entry (notifyu_row_line-read m) F files
        notifyu_loader_path rows sources done state fine known e room room' serving

-- The three files in turn, once the tenants are loaded.
load_sources :
    (F : FileSystem) (files : F.State) (c : Configuration)
    → IsSound c
    → AreLoaderFiles F files c
    → (m : EntryMap) (tenants : TenantRegistry) (s₀ : ApplicationState)
    → tenant_of m tenants ≡ tenant_named c
    → Serving tenants 0 [] s₀
    → (s₁ s₂ s₃ : ApplicationState) × (load_discourse F files discourse_loader_path m s₀ ≡ ok s₁)
      × (load_filepp F files filepp_loader_path m s₁ ≡ ok s₂)
      × (load_notifyu F files notifyu_loader_path m s₂ ≡ ok s₃)
      × Serving tenants
          (((0 + length c.discourse_rows) + length c.filepp_rows) + length c.notifyu_rows)
          (purposes (tenant_of m tenants) c)
          s₃
load_sources F files c sound shown m tenants s₀ same start =
    let first = purposes_of AnyInfo.discourse (tenant_of m tenants) c.discourse_rows in
    let second = purposes_of AnyInfo.filepp (tenant_of m tenants) c.filepp_rows in
    let third = purposes_of AnyInfo.notifyu (tenant_of m tenants) c.notifyu_rows in
    let room : length ((first ++ second) ++ third) ≤ int_max =
      subst (λ f. length (purposes f c) ≤ int_max) (sym same) sound.operation_room in
    let all = length-append (first ++ second) third in
    let some_of = length-append first second in
    let (s₁, e₁, v₁) =
      load_discourse-Adds F files m tenants 0 [] s₀ start c.discourse_rows sound.discourse_rows
        (subst (λ f. AreKnown f c.discourse_rows) (sym same) sound.known_discourse)
        shown.discourse_rows (omega (arith, sound.source_room))
        (omega (arith, room, all, some_of)) in
    let (s₂, e₂, v₂) =
      load_filepp-Adds F files m tenants (0 + length c.discourse_rows) first s₁ v₁ c.filepp_rows
        sound.filepp_rows (subst (λ f. AreKnown f c.filepp_rows) (sym same) sound.known_filepp)
        shown.filepp_rows (omega (arith, sound.source_room)) (omega (arith, room, all, some_of)) in
    let (s₃, e₃, v₃) =
      load_notifyu-Adds F files m tenants ((0 + length c.discourse_rows) + length c.filepp_rows)
        (first ++ second) s₂ v₂ c.notifyu_rows sound.notifyu_rows
        (subst (λ f. AreKnown f c.notifyu_rows) (sym same) sound.known_notifyu) shown.notifyu_rows
        (omega (arith, sound.source_room)) (omega (arith, room, all)) in
    (s₁, s₂, s₃, e₁, e₂, e₃, v₃)

-- On loader files that show a sound configuration, the set-up is done without an exception, and the
-- operation states that it spawns are exactly those of the configuration, in its order: one for
-- each source and each of its tenants, whose ids have the source's header and the tenant in the
-- registries.
pub load_all-configured :
    (F : FileSystem) (files : F.State) (c : Configuration)
    → IsSound c
    → AreLoaderFiles F files c
    → (state : ApplicationState) × (load_all F files ≡ ok state)
      × AllPairs
          (IsFor state.tenant_registry state.data_source_info_registry)
          state.data_source_operation_state_registry.spawned
          (purposes (tenant_named c) c)
unfolding load_all
load_all-configured F files c sound shown =
    let (m, tenants, e₀, loaded, found) =
      load_tenant_file_shown F files tenant_loader_path c.tenants sound.tenants sound.tenant_room
        shown.tenants in
    let same : tenant_of m tenants ≡ tenant_named c = fun_ext found in
    let (s₁, s₂, s₃, e₁, e₂, e₃, v) =
      load_sources F files c sound shown m tenants
        (record make_application_state { tenant_registry = tenants }) same
        (record {
          same_tenants = refl;
          infos = empty-IsValid;
          operations = empty-IsValid;
          info_count = refl;
          operation_count = refl;
          spawned = tt;
        }) in
    (
      s₃,
      rw (e₀, e₁, e₂) e₃,
      rw v.same_tenants (
          subst
            (λ f.
              AllPairs (IsFor tenants s₃.data_source_info_registry)
                s₃.data_source_operation_state_registry.spawned (purposes f c))
            same v.spawned),
    )
