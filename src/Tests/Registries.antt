-- ===== src/Tests/Registries.antt =====
-- Runs of include/registry, include/tenant and include/data_source/data_source_loader.hpp.
use feedback_ingest.Base.{
  ◌≡◌, refl, ap, Bool, arith, true, none, List, [], ◌∷◌, Bytes, codes, ok, throws, out_of_range,
  if◌then◌else◌, ◌==◌, bytes_eq, nat_eq,
}
use feedback_ingest.Base.Int.{ℤ, pos, int_eq, increment}
use feedback_ingest.Base.Dict
use feedback_ingest.Registry.{
  Key, InMemoryRegistry, empty, next_key, register_value, get, has, remove,
}
use feedback_ingest.Registry.Invariant.{IsValid, empty-IsValid, Issued}
use feedback_ingest.Registry.Keys.{Stored, register_value_lem, remove_lem, register_value-remove}
use feedback_ingest.Registry.History.{
  Reach, start, stores, removes, keys_below_peak, register_value-total,
}
use feedback_ingest.Tenant.{TenantRegistry, register_all_tenants}
use feedback_ingest.Tenant.Loaded.{IsLoaded, tenant_of, last_tenant, register_all_tenants_lem}

abbrev nothing : InMemoryRegistry Bytes
nothing = empty

abbrev one : InMemoryRegistry Bytes
one = record { cur_key = pos 1; unused = []; registry = (pos 0, codes "a") ∷ [] }

abbrev one_freed : InMemoryRegistry Bytes
one_freed = record { cur_key = pos 1; unused = pos 0 ∷ []; registry = [] }

register_first : register_value (codes "a") nothing ≡ ok (pos 0, one)
unfolding register_value next_key increment Dict.emplace int_eq nat_eq
register_first = refl

register_again : register_value (codes "a") one_freed ≡ ok (pos 0, one)
unfolding register_value next_key increment Dict.emplace int_eq nat_eq
register_again = refl

remove_first : remove (pos 0) one ≡ (true, one_freed)
unfolding remove Dict.erase Dict.contains int_eq nat_eq
remove_first = refl

has_first : has (pos 0) one ≡ true
unfolding has Dict.contains int_eq nat_eq
has_first = refl

register_value_lem_example :
    (k : Key) × (r' : InMemoryRegistry Bytes) × (register_value (codes "a") nothing ≡ ok (k, r'))
    × Stored (codes "a") nothing k r'
register_value_lem_example = register_value_lem (codes "a") nothing empty-IsValid (omega arith)

remove_lem_example :
    ((remove (pos 0) one).0 ≡ has (pos 0) one)
    × ((j : Key)
        → get j (remove (pos 0) one).1 ≡ (if j == pos 0 then throws out_of_range else get j one))
    × (IsValid one → IsValid (remove (pos 0) one).1)
remove_lem_example = remove_lem one (pos 0)

register_value-remove_example :
    (r' : InMemoryRegistry Bytes) × (register_value (codes "b") (remove (pos 0) one).1
      ≡ ok (pos 0, r'))
    × ((j : Key) → get j r' ≡ (if j == pos 0 then ok (codes "b") else get j one))
    × (r'.unused ≡ [])
register_value-remove_example = register_value-remove (codes "b") one (pos 0) has_first

one_Reach : Reach 1 one
one_Reach = stores (codes "a") (pos 0) start (omega arith) register_first

freed_Reach : Reach 1 one_freed
freed_Reach =
    removes (pos 0) one_Reach (ap (λ (t : Bool × InMemoryRegistry Bytes). t.1) remove_first)

keys_below_peak_example : Issued 1 (pos 0)
keys_below_peak_example = keys_below_peak (omega arith) one_Reach (pos 0) has_first

register_value-total_example :
    (k : Key) × (r' : InMemoryRegistry Bytes) × (register_value (codes "b") one_freed ≡ ok (k, r'))
    × Stored (codes "b") one_freed k r'
register_value-total_example =
    register_value-total (omega arith) freed_Reach (codes "b") (omega arith)

abbrev tenant_lines : List Bytes
tenant_lines = codes "1 a@b.c org" ∷ [] ∷ codes "1 d@e.f org2" ∷ []

abbrev no_tenants : TenantRegistry
no_tenants = empty

register_all_tenants_lem_example :
    (m : Dict.Dict ℤ Key) × (reg' : TenantRegistry) × (register_all_tenants no_tenants tenant_lines
      ≡ ok (m, reg'))
    × IsLoaded m reg'
    × ((i : ℤ) → tenant_of m reg' i ≡ last_tenant i tenant_lines none)
    × ((k : Key) → has k no_tenants ≡ true → get k reg' ≡ get k no_tenants)
register_all_tenants_lem_example =
    register_all_tenants_lem no_tenants tenant_lines empty-IsValid (omega arith)
