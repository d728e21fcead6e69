-- ===== src/Tenant/Shown.antt =====
-- A tenant file that shows a list of tenants (include/tenant/read_tenant_file.hpp).
use feedback_ingest.Base.{
  ◌≡◌, refl, ap, ◌∙◌, ◌≤◌, false, arith, Option, none, some, List, [], ◌∷◌, map, Bytes, ok, All,
  length, length-map, ◌==◌, if◌then◌else◌,
}
use feedback_ingest.Base.Int.{ℤ, int_eq, int_max}
use feedback_ingest.Base.Decimal.{to_string}
use feedback_ingest.Registry.{empty}
use feedback_ingest.Registry.Invariant.{empty-IsValid}
use feedback_ingest.FileOps.{FileSystem}
use feedback_ingest.FileOps.Lines.{unlines}
use feedback_ingest.FileOps.Shown.{sync_read_file_lines_shown}
use feedback_ingest.Stream.Words.{IsWord}
use feedback_ingest.Stream.Ints.{IsInt}
use feedback_ingest.Stream.Shown.{
  IsKept, IsWord-IsLine, to_string-IsWord, word-IsKept, space_word-IsLine,
}
use feedback_ingest.Tenant.{TenantInfo, TenantRegistry, EntryMap, parse_entry, load_tenant_file}
use feedback_ingest.Utils.{is_blank}
use feedback_ingest.Tenant.Lines.{tenant_line, parse_entry-tenant_line}
use feedback_ingest.Tenant.Loaded.{
  IsLoaded, tenant_of, next_tenant, last_tenant, register_all_tenants_lem,
}

-- A tenant and its number in the file.
abbrev pub TenantRow : Type 0
TenantRow = ℤ × TenantInfo

abbrev pub row_line : TenantRow → Bytes
row_line (i, t) = tenant_line i t

abbrev pub IsTenantRow : TenantRow → Type 0
IsTenantRow (i, t) = IsInt i × IsWord t.owner_email × IsWord t.organisation

row_line-IsKept : (row : TenantRow) → IsTenantRow row → IsKept (row_line row)
row_line-IsKept (i, t) (fits, email, organisation) =
    word-IsKept (to_string i) _ (to_string-IsWord i)
      (space_word-IsLine t.owner_email _ email (λ e. cc, IsWord-IsLine t.organisation organisation))

-- The tenant of the last row with the number `i`.
abbrev pub named : ℤ → List TenantRow → Option TenantInfo → Option TenantInfo
named i [] before = before
named i ((j, t) ∷ rows) before = named i rows (if i == j then some t else before)

next_tenant-parsed :
    (i j : ℤ) (t : TenantInfo) (line : Bytes) (before : Option TenantInfo)
    → is_blank line ≡ false
    → parse_entry line ≡ (some j, t)
    → next_tenant i line before ≡ (if i == j then some t else before)
next_tenant-parsed i j t line before kept e =
    rw (kept, ap (λ (x : Option ℤ × TenantInfo). x.0) e, ap (λ (x : Option ℤ × TenantInfo). x.1) e)
      refl

next_tenant_row :
    (i : ℤ) (row : TenantRow) (before : Option TenantInfo)
    → IsTenantRow row
    → next_tenant i (row_line row) before ≡ (if i == row.0 then some row.1 else before)
next_tenant_row i (j, t) before h =
    next_tenant-parsed i j t (row_line (j, t)) before (row_line-IsKept (j, t) h).1
      (parse_entry-tenant_line j t h.0 h.1 h.2)

last_tenant-rows :
    (i : ℤ) (rows : List TenantRow) (before : Option TenantInfo)
    → All IsTenantRow rows
    → last_tenant i (map row_line rows) before ≡ named i rows before
unfolding last_tenant
last_tenant-rows i [] before _ = refl
last_tenant-rows i (row ∷ rows) before (h, hs) =
    last_tenant-rows i rows _ hs
    ∙ ap (λ (o : Option TenantInfo). named i rows o) (next_tenant_row i row before h)

-- Such a file is loaded: each number stands for the tenant of its last row.
pub load_tenant_file_shown :
    (F : FileSystem) (files : F.State) (path : Bytes) (rows : List TenantRow)
    → All IsTenantRow rows
    → length rows ≤ int_max
    → F.read files path ≡ some (unlines (map row_line rows))
    → (m : EntryMap) × (tenants : TenantRegistry) × (load_tenant_file F files path empty
        ≡ ok (m, tenants))
      × IsLoaded m tenants
      × ((i : ℤ) → tenant_of m tenants i ≡ named i rows none)
unfolding load_tenant_file
load_tenant_file_shown F files path rows h room e =
    let (m, tenants, done, loaded, found, _) =
      register_all_tenants_lem empty (map row_line rows) empty-IsValid
        (omega (arith, room, length-map rows row_line)) in
    (
      m,
      tenants,
      rw (sync_read_file_lines_shown row_line IsTenantRow row_line-IsKept F files path rows h e)
          done,
      loaded,
      λ i. found i ∙ last_tenant-rows i rows none h,
    )
