-- ===== src/Registry.antt =====
-- include/registry/in_memory_registry.hpp: values under integer keys, where the key of a removed
-- value is handed out again.
pub mod Invariant
pub mod Keys
pub mod Returned
pub mod History
use feedback_ingest.Base.{◌≡◌, Bool, true, false, List, [], ◌∷◌, Outcome, ok, ◌>>=◌}
use feedback_ingest.Base.{if◌then◌else◌}
use feedback_ingest.Base.Int.{ℤ, pos, int_eq, increment}
use feedback_ingest.Base.Dict
use feedback_ingest.Base.Dict.{Dict}

-- `key_t`
abbrev pub Key : Type 0
Key = ℤ

-- `tenant_id_t` and `source_id_t` of include/data_source/types.hpp: the keys of two registries.
abbrev pub TenantId : Type 0
TenantId = Key

abbrev pub SourceId : Type 0
SourceId = Key

-- `in_memory_registry<ValueType>`. The head of `unused` is the back of the vector.
pub record InMemoryRegistry {ℓ} (V : Type ℓ) : Type ℓ where
  pub cur_key : Key
  pub unused : List Key
  pub registry : Dict Key V

-- The two branches that choose a key, and what they leave of `cur_key` and `unused`.
unfoldable pub next_key : Key → List Key → Outcome (Key × Key × List Key)
unfolding increment
next_key cur (key ∷ rest) = ok (key, cur, rest)
next_key cur [] = do next ← increment cur; ok (cur, next, [])

module _ {ℓ} {V : Type ℓ} where
  -- The default member initialisers.
  abbrev pub empty : InMemoryRegistry V
  empty = record { cur_key = pos 0; unused = []; registry = [] }

  unfoldable pub register_value : V → InMemoryRegistry V → Outcome (Key × InMemoryRegistry V)
  unfolding next_key Dict.emplace
  register_value value r = do
    (key, cur, rest) ← next_key r.cur_key r.unused
    ok (key, record { cur_key = cur; unused = rest; registry = Dict.emplace key value r.registry })

  unfoldable pub get : Key → InMemoryRegistry V → Outcome V
  unfolding Dict.lookup_at
  get key r = Dict.lookup_at key r.registry

  unfoldable pub has : Key → InMemoryRegistry V → Bool
  unfolding Dict.contains
  has key r = Dict.contains key r.registry

  unfoldable pub remove : Key → InMemoryRegistry V → Bool × InMemoryRegistry V
  unfolding Dict.contains Dict.erase
  remove key r =
      if Dict.contains key r.registry
      then (true, record r { unused = key ∷ r.unused; registry = Dict.erase key r.registry })
      else (false, r)
