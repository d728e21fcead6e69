-- ===== src/DataSource.antt =====
-- include/data_source/data_source_info_header.hpp and data_source_loader.hpp: the entries of a
-- loader file, whatever the source.
pub mod Tenants
use feedback_ingest.Base.{ℕ, zero, suc, Option, none, some, List, [], ◌∷◌, Bytes}
use feedback_ingest.Base.{Outcome, ok, undefined, ◌>>=◌, traverse}
use feedback_ingest.Base.Int.{ℤ, pos, negsuc, int_eq}
use feedback_ingest.Base.Dict
use feedback_ingest.Registry.{Key}
use feedback_ingest.Stream.{Stream, extract_int}
use feedback_ingest.Tenant.{EntryMap}
use feedback_ingest.Utils.{without_blank_lines}

-- `data_source_info_header_t<data_source_t>`
pub record InfoHeader {ℓ} (SourceInfo : Type ℓ) : Type ℓ where
  pub name : Bytes
  pub source_info : SourceInfo

-- `data_load_entry_t<SourceInfo>`
pub record DataLoadEntry {ℓ} (SourceInfo : Type ℓ) : Type ℓ where
  pub source_info_with_header : InfoHeader SourceInfo
  pub subscribing_tenants : List Key

-- The value of a variable with no initial value, after an extraction into it.
abbrev pub initialised {ℓ} : {A : Type ℓ} → Option A → Outcome A
initialised none = undefined
initialised (some a) = ok a

-- The rounds of `for (int i = 0; i < n; ++i)`.
abbrev pub rounds : ℤ → ℕ
rounds (pos n) = n
rounds (negsuc n) = 0

-- That loop in `get_loader_entry` of the discourse and the filepp loader.
unfoldable pub read_tenants : ℕ → EntryMap → Stream → Outcome (List Key)
unfolding extract_int Dict.lookup_at
read_tenants zero entry_map stream = ok []
read_tenants (suc n) entry_map stream = do
  x ← initialised (extract_int stream).0
  tenant ← Dict.lookup_at x entry_map
  tenants ← read_tenants n entry_map (extract_int stream).1
  ok (tenant ∷ tenants)

-- `data_loader_utils::with_lines`
unfoldable pub with_lines {ℓ} :
    {A : Type ℓ} → (EntryMap → Bytes → Outcome A) → EntryMap → List Bytes → Outcome (List A)
unfolding without_blank_lines
with_lines get_loader_entry entry_map entries =
    traverse (get_loader_entry entry_map) (without_blank_lines entries)
