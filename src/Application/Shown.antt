-- ===== src/Application/Shown.antt =====
-- The loading of a file that shows a list of sources (`load_from_file` of each source, and
-- `load_into_application` of include/data_source/data_source_loader.hpp).
use feedback_ingest.Base.{
  ◌≡◌, refl, Option, some, List, [], ◌∷◌, map, ok, Bytes, All, AllPairs, Outcome, traverse,
  Option-cases, inl, inr,
}
use feedback_ingest.Base.Int.{ℤ, int_eq}
use feedback_ingest.Base.Dict
use feedback_ingest.Registry.{Key, get}
use feedback_ingest.Tenant.{TenantInfo, TenantRegistry, EntryMap}
use feedback_ingest.Tenant.Loaded.{of_get, tenant_of}
use feedback_ingest.DataSource.{InfoHeader, DataLoadEntry}
use feedback_ingest.DataSource.Tenants.{find_tenants}
use feedback_ingest.Application.{
  AnyInfo, AnyOperationState, InfoRegistry, source_id_of, tenant_id_of,
}

-- A source of a loader file, and the numbers of the tenants that subscribe to it.
abbrev pub SourceRow : Type 0 → Type 0
SourceRow I = InfoHeader I × List ℤ

-- What an operation state is for: the header of its source, and its tenant.
abbrev pub Purpose : Type 0
Purpose = AnyInfo × Option TenantInfo

abbrev pub Carries : AnyOperationState → AnyInfo → Type 0
Carries (AnyOperationState.discourse self) (AnyInfo.discourse h) =
    self.discourse_info ≡ h.source_info
Carries (AnyOperationState.filepp self) (AnyInfo.filepp h) = self.filepp_info ≡ h.source_info
Carries (AnyOperationState.notifyu self) (AnyInfo.notifyu h) = self.notifyu_info ≡ h.source_info
Carries _ _ = ⊥

-- The registries have the header and the tenant under the ids of the state, and it carries what the
-- header says.
abbrev pub IsFor : TenantRegistry → InfoRegistry → AnyOperationState → Purpose → Type 0
IsFor tenants infos o (info, tenant) =
    (get (source_id_of o) infos ≡ ok info)
    × (of_get (get (tenant_id_of o) tenants) ≡ tenant)
    × Carries o info

module _ (m : EntryMap) (tenants : TenantRegistry) where
  abbrev pub IsKnown : ℤ → Type 0
  IsKnown i = (t : TenantInfo) × (tenant_of m tenants i ≡ some t)

  abbrev pub IsKeyOf : ℤ → Key → Type 0
  IsKeyOf i k = of_get (get k tenants) ≡ tenant_of m tenants i

  find_tenant : (i : ℤ) → IsKnown i → (k : Key) × (Dict.lookup_at i m ≡ ok k) × IsKeyOf i k
  unfolding Dict.lookup_at
  find_tenant i (t, e) = elim (Option-cases (Dict.lookup i m)) [
    | inl absent ↦ absurd (cc)
    | inr (k, found) ↦ (k, rw (found, Dict.lookup_at) refl, rw found refl)
  ]

  pub find_tenants-known :
      (is : List ℤ)
      → All IsKnown is
      → (ks : List Key) × (find_tenants m is ≡ ok ks) × AllPairs IsKeyOf is ks
  find_tenants-known [] _ = ([], refl, tt)
  find_tenants-known (i ∷ is) (h, hs) =
      let (k, found, own) = find_tenant i h in
      let (ks, founds, owns) = find_tenants-known is hs in
      (k ∷ ks, rw (found, founds) refl, (own, owns))

  -- The entry is that of the row.
  abbrev pub IsEntryOf : {I : Type 0} → SourceRow I → DataLoadEntry I → Type 0
  IsEntryOf row entry =
      (entry.source_info_with_header ≡ row.0) × AllPairs IsKeyOf row.1 entry.subscribing_tenants

  module _ {I : Type 0} (line : SourceRow I → Bytes) (IsFine : SourceRow I → Type 0)
      (get_loader_entry : Bytes → Outcome (DataLoadEntry I))
      (reads : (row : SourceRow I) (ks : List Key)
        → IsFine row
        → find_tenants m row.1 ≡ ok ks
        → get_loader_entry (line row)
          ≡ ok (record { source_info_with_header = row.0; subscribing_tenants = ks })) where
    pub traverse_shown :
        (rows : List (SourceRow I))
        → All IsFine rows
        → All (λ row. All IsKnown row.1) rows
        → (entries : List (DataLoadEntry I)) × (traverse get_loader_entry (map line rows)
            ≡ ok entries)
          × AllPairs IsEntryOf rows entries
    traverse_shown [] _ _ = ([], refl, tt)
    traverse_shown (row ∷ rows) (h, hs) (k, ks) =
        let (keys, found, own) = find_tenants-known row.1 k in
        let (entries, done, owns) = traverse_shown rows hs ks in
        (_ ∷ entries, rw (reads row keys h found, done) refl, ((refl, own), owns))
