-- ===== src/Tenant/Loaded.antt =====
-- What the loading of a tenant file leaves (include/tenant/read_tenant_file.hpp).
use feedback_ingest.Base.{
  suc, ◌+◌, ◌<◌, ◌≤◌, ◌≡◌, refl, ◌∙◌, ap, true, false, arith, ◌==◌, if◌then◌else◌, length,
}
use feedback_ingest.Base.{
  Option, none, some, List, [], ◌∷◌, Bytes, Outcome, ok, throws, undefined, inl, inr, All,
}
use feedback_ingest.Base.Int.{ℤ, int_eq, int_max}
use feedback_ingest.Base.{Bool-cases}
use mathlib.Core.Path.{subst}
use feedback_ingest.Base.Dict
use feedback_ingest.Registry.{Key, get, has}
use feedback_ingest.Registry.Invariant.{IsValid}
use feedback_ingest.Registry.Keys.{
  Stored, register_value_lem, Stored-self, Stored-kept, Stored-has, Stored-has_self,
}
use feedback_ingest.Utils.{
  is_blank, without_blank_lines, without_blank_lines-All, without_blank_lines_kept,
  length-without_blank_lines,
}
use feedback_ingest.Tenant.{
  TenantInfo, TenantRegistry, EntryMap, parse_entry, register_entry, register_entries,
  register_all_tenants,
}
use feedback_ingest.Tenant.Lines.{parse_entry_index}

abbrev pub of_get : Outcome TenantInfo → Option TenantInfo
of_get (ok t) = some t
of_get (throws e) = none
of_get undefined = none

abbrev of_key : TenantRegistry → Option Key → Option TenantInfo
of_key reg none = none
of_key reg (some k) = of_get (get k reg)

-- The tenant that a number of the file stands for.
abbrev pub tenant_of : EntryMap → TenantRegistry → ℤ → Option TenantInfo
tenant_of m reg i = of_key reg (Dict.lookup i m)

-- The registry is valid, and each number of the map stands for a tenant.
pub record IsLoaded (m : EntryMap) (reg : TenantRegistry) : Type 0 where
  pub valid : IsValid reg
  pub live : (i : ℤ) (k : Key) → Dict.lookup i m ≡ some k → has k reg ≡ true

-- The registry was extended by one tenant, under the number `i` of the file.
pub record Entered (i : ℤ) (t : TenantInfo) (m : EntryMap) (reg : TenantRegistry) (m' : EntryMap)
    (reg' : TenantRegistry) : Type 0 where
  pub loaded : IsLoaded m' reg'
  pub grows : length reg'.registry ≡ suc (length reg.registry)
  pub tenants : (j : ℤ) → tenant_of m' reg' j ≡ (if j == i then some t else tenant_of m reg j)
  pub kept : (k : Key) → has k reg ≡ true → get k reg' ≡ get k reg
  pub stays : (k : Key) → has k reg ≡ true → has k reg' ≡ true

module _ (i : ℤ) (t : TenantInfo) (m : EntryMap) (reg : TenantRegistry) (h : IsLoaded m reg)
    (k : Key) {reg' : TenantRegistry} (s : Stored t reg k reg') where
  insert-live :
      (j : ℤ) (k' : Key) → Dict.lookup j (Dict.insert i k m) ≡ some k' → has k' reg' ≡ true
  insert-live j k' e = elim (int_eq.dec j i) [
    | yes p ↦
        let same : k ≡ k' = ground (arith, Dict.lookup-insert j i k m, p) in
        subst (λ (x : Key). has x reg' ≡ true) same (Stored-has_self s)
    | no n ↦ Stored-has s k' (h.live j k' (ground (arith, Dict.lookup-insert j i k m, n)))
  ]

  of_key-kept : (j : ℤ) (o : Option Key) → Dict.lookup j m ≡ o → of_key reg' o ≡ of_key reg o
  of_key-kept j none e = refl
  of_key-kept j (some k') e = ap of_get (Stored-kept s k' (h.live j k' e))

  insert-tenants :
      (j : ℤ)
      → tenant_of (Dict.insert i k m) reg' j ≡ (if j == i then some t else tenant_of m reg j)
  insert-tenants j = rw Dict.lookup-insert (elim (int_eq.dec j i) [
    | yes p ↦ ground (arith, Stored-self s)
    | no n ↦ ground (arith, of_key-kept j (Dict.lookup j m) refl)
  ])

-- A line that is not blank extends the registry by its tenant, while there is room for one.
register_entry_lem :
    (entry : Bytes) (m : EntryMap) (reg : TenantRegistry) (i : ℤ)
    → IsLoaded m reg
    → length reg.registry < int_max
    → (parse_entry entry).0 ≡ some i
    → (m' : EntryMap) × (reg' : TenantRegistry) × (register_entry entry m reg ≡ ok (m', reg'))
      × Entered i (parse_entry entry).1 m reg m' reg'
unfolding register_entry
register_entry_lem entry m reg i h room e =
    let t = (parse_entry entry).1 in
    let (k, reg', registered, s) = register_value_lem t reg h.valid room in
    (
      Dict.insert i k m,
      reg',
      rw (registered, e),
      record {
        loaded = record { valid = s.valid; live = insert-live i t m reg h k s };
        grows = s.grows;
        tenants = insert-tenants i t m reg h k s;
        kept = Stored-kept s;
        stays = Stored-has s;
      },
    )

-- The tenant under `i` after one more line: blank lines say nothing.
abbrev pub next_tenant : ℤ → Bytes → Option TenantInfo → Option TenantInfo
next_tenant i line before = if is_blank line then before else elim (parse_entry line).0 [
  | none ↦ before
  | some j ↦ if i == j then some (parse_entry line).1 else before
]

next_tenant_entry :
    (line : Bytes) (i : ℤ)
    → is_blank line ≡ false
    → (parse_entry line).0 ≡ some i
    → (j : ℤ) (before : Option TenantInfo)
    → (if j == i then some (parse_entry line).1 else before) ≡ next_tenant j line before
next_tenant_entry line i kept e j before = rw (kept, e)

-- The tenant of the last line with the number `i`.
unfoldable pub last_tenant : ℤ → List Bytes → Option TenantInfo → Option TenantInfo
last_tenant i [] before = before
last_tenant i (line ∷ lines) before = last_tenant i lines (next_tenant i line before)

-- The registry and the map after `lines`, none of them blank.
record AllEntered (lines : List Bytes) (m : EntryMap) (reg : TenantRegistry) (m' : EntryMap)
    (reg' : TenantRegistry) : Type 0 where
  loaded : IsLoaded m' reg'
  tenants : (j : ℤ) → tenant_of m' reg' j ≡ last_tenant j lines (tenant_of m reg j)
  kept : (k : Key) → has k reg ≡ true → get k reg' ≡ get k reg

register_entries_lem :
    (lines : List Bytes) (m : EntryMap) (reg : TenantRegistry)
    → IsLoaded m reg
    → length reg.registry + length lines ≤ int_max
    → All (λ l. is_blank l ≡ false) lines
    → (m' : EntryMap) × (reg' : TenantRegistry) × (register_entries lines m reg ≡ ok (m', reg'))
      × AllEntered lines m reg m' reg'
unfolding register_entries last_tenant
register_entries_lem [] m reg h room _ =
    (m, reg, refl, record { loaded = h; tenants = λ j. refl; kept = λ k _. refl })
register_entries_lem (l ∷ ls) m reg h room (hl, hls) =
    let (i, e) = parse_entry_index l hl in
    let (m₁, reg₁, step, s) = register_entry_lem l m reg i h (omega arith) e in
    let (m', reg', rest, r) =
      register_entries_lem ls m₁ reg₁ s.loaded (omega (arith, s.grows)) hls in
    (
      m',
      reg',
      rw step rest,
      record {
        loaded = r.loaded;
        tenants = λ j.
            r.tenants j
            ∙ ap (last_tenant j ls)
                (s.tenants j ∙ next_tenant_entry l i hl e j (tenant_of m reg j));
        kept = λ k there. r.kept k (s.stays k there) ∙ s.kept k there;
      },
    )

last_tenant-without_blank_lines :
    (i : ℤ) (lines : List Bytes) (before : Option TenantInfo)
    → last_tenant i (without_blank_lines lines) before ≡ last_tenant i lines before
unfolding last_tenant without_blank_lines
last_tenant-without_blank_lines i [] before = refl
last_tenant-without_blank_lines i (l ∷ ls) before = elim (Bool-cases (is_blank l)) [
  | inl e ↦ rw e (last_tenant-without_blank_lines i ls before)
  | inr e ↦
      ap (λ (t : List Bytes). last_tenant i t before) (without_blank_lines_kept l ls e)
      ∙ last_tenant-without_blank_lines i ls (next_tenant i l before)
]

-- Over a valid registry with room for the lines, `register_all_tenants` returns, whatever the lines
-- hold. Each number of the file then stands for the tenant of the last line that has it, and for
-- none if no line has it; the tenants that were registered before are kept.
pub register_all_tenants_lem :
    (reg : TenantRegistry) (lines : List Bytes)
    → IsValid reg
    → length reg.registry + length lines ≤ int_max
    → (m : EntryMap) × (reg' : TenantRegistry) × (register_all_tenants reg lines ≡ ok (m, reg'))
      × IsLoaded m reg'
      × ((i : ℤ) → tenant_of m reg' i ≡ last_tenant i lines none)
      × ((k : Key) → has k reg ≡ true → get k reg' ≡ get k reg)
unfolding register_all_tenants
register_all_tenants_lem reg lines h room =
    let start : IsLoaded [] reg = record {
      valid = h;
      live = λ i k e. cc (Dict.lookup-nil {V = Key} i);
    } in
    let (m, reg', e, r) =
      register_entries_lem (without_blank_lines lines) [] reg start
        (omega (arith, length-without_blank_lines lines)) (without_blank_lines-All lines) in
    (m, reg', e, r.loaded, λ i. r.tenants i ∙ last_tenant-without_blank_lines i lines _, r.kept)
