-- ===== src/Tenant.antt =====
-- include/tenant: what is kept of a tenant, and the loading of the tenant file.
pub mod Lines
pub mod Loaded
pub mod Shown
use feedback_ingest.Base.{Option, none, some, List, [], ◌∷◌, Bytes, Outcome, ok, undefined, ◌>>=◌}
use feedback_ingest.Base.Int.{ℤ, int_eq}
use feedback_ingest.Base.Dict
use feedback_ingest.Base.Dict.{Dict}
use feedback_ingest.Registry.{Key, InMemoryRegistry, register_value}
use feedback_ingest.Stream.{Stream, open_stream, extract_word, extract_int}
use feedback_ingest.Utils.{without_blank_lines}
use feedback_ingest.FileOps.{FileSystem, sync_read_file_lines}

pub record TenantInfo : Type 0 where
  pub owner_email : Bytes
  pub organisation : Bytes

-- `tenant_registry_t`
abbrev pub TenantRegistry : Type 0
TenantRegistry = InMemoryRegistry TenantInfo

-- The keys of the registry by the numbers of the file.
abbrev pub EntryMap : Type 0
EntryMap = Dict ℤ Key

-- A `std::string` that an extraction leaves as it was is empty.
abbrev pub or_empty : Option Bytes → Bytes
or_empty none = []
or_empty (some w) = w

-- The extractions of `register_entry`: `file_index`, which has no initial value, and the tenant.
unfoldable pub parse_entry : Bytes → Option ℤ × TenantInfo
unfolding extract_int extract_word
parse_entry entry =
    let (file_index, s₁) = extract_int (open_stream entry) in
    let (email, s₂) = extract_word s₁ in
    let (organisation, s₃) = extract_word s₂ in
    (file_index, record { owner_email = or_empty email; organisation = or_empty organisation })

-- `entry_map[file_index] = actual_index`, which reads a variable that may have no value.
unfoldable pub assign_index : Option ℤ → Key → EntryMap → Outcome EntryMap
unfolding Dict.insert
assign_index none key m = undefined
assign_index (some i) key m = ok (Dict.insert i key m)

unfoldable pub register_entry :
    Bytes → EntryMap → TenantRegistry → Outcome (EntryMap × TenantRegistry)
unfolding parse_entry assign_index register_value
register_entry entry entry_map tenant_registry = do
  (actual_index, registry) ← register_value (parse_entry entry).1 tenant_registry
  assigned ← assign_index (parse_entry entry).0 actual_index entry_map
  ok (assigned, registry)

-- The loop of `register_all_tenants`.
unfoldable pub register_entries :
    List Bytes → EntryMap → TenantRegistry → Outcome (EntryMap × TenantRegistry)
unfolding register_entry
register_entries [] mp tenant_registry = ok (mp, tenant_registry)
register_entries (entry ∷ entries) mp tenant_registry = do
  (mp', registry) ← register_entry entry mp tenant_registry
  register_entries entries mp' registry

unfoldable pub register_all_tenants :
    TenantRegistry → List Bytes → Outcome (EntryMap × TenantRegistry)
unfolding register_entries without_blank_lines
register_all_tenants tenant_registry entries =
    register_entries (without_blank_lines entries) [] tenant_registry

unfoldable pub load_tenant_file :
    (F : FileSystem) → F.State → Bytes → TenantRegistry → Outcome (EntryMap × TenantRegistry)
unfolding register_all_tenants sync_read_file_lines
load_tenant_file F files file_path tenant_registry =
    register_all_tenants tenant_registry (sync_read_file_lines F files file_path)
