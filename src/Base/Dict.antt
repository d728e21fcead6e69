-- ===== src/Base/Dict.antt =====
-- `std::unordered_map`. The program never iterates over one, so the order of the entries does not
-- show; the functions that change a map leave each key with one entry.
use mathlib.Core.Logic.{◌≢◌}
use mathlib.Core.Path.{◌≡◌, refl}
use mathlib.Core.Bool.{Bool, true, false}
use mathlib.Core.Option.{Option, none, some}
use mathlib.Core.List.{List, [], ◌∷◌}
use Prim.Native.Nat.{suc}
use native.Mathlib.Omega.{arith}
use feedback_ingest.Base.Equality.{Eq, ◌==◌, if◌then◌else◌}
use feedback_ingest.Base.Lists.{length}
use feedback_ingest.Base.Failure.{Outcome, ok, throws, out_of_range}

abbrev pub Dict {ℓ κ} : Type ℓ → Type κ → Type (ℓ ⊔ κ)
Dict K V = List (K × V)

module _ {ℓ κ} {K : Type ℓ} {V : Type κ} ⦃e : Eq K⦄ where
  -- `m.find(k)`
  unfoldable pub lookup : K → Dict K V → Option V
  lookup k [] = none
  lookup k ((j, v) ∷ m) = if k == j then some v else lookup k m

  -- `m.contains(k)`
  unfoldable pub contains : K → Dict K V → Bool
  unfolding lookup
  contains k m = elim (lookup k m) [ none ↦ false | some _ ↦ true ]

  -- `m.at(k)`
  unfoldable pub lookup_at : K → Dict K V → Outcome V
  unfolding lookup
  lookup_at k m = elim (lookup k m) [ none ↦ throws out_of_range | some v ↦ ok v ]

  -- `m[k] = v`
  unfoldable pub insert : K → V → Dict K V → Dict K V
  insert k v [] = (k, v) ∷ []
  insert k v ((j, w) ∷ m) = if k == j then (k, v) ∷ m else (j, w) ∷ insert k v m

  -- `m.emplace(k, v)`: a key that is there keeps its value.
  unfoldable pub emplace : K → V → Dict K V → Dict K V
  unfolding lookup
  emplace k v m = elim (lookup k m) [ none ↦ (k, v) ∷ m | some _ ↦ m ]

  -- `m.erase(k)`
  unfoldable pub erase : K → Dict K V → Dict K V
  erase k [] = []
  erase k ((j, w) ∷ m) = let rest = erase k m in if k == j then rest else (j, w) ∷ rest

  pub lookup-nil : (k : K) → lookup k [] ≡ none
  unfolding lookup
  lookup-nil k = refl

  pub lookup-insert :
      (j k : K) (v : V) (m : Dict K V)
      → lookup j (insert k v m) ≡ (if j == k then some v else lookup j m)
  unfolding insert lookup
  lookup-insert j k v [] = ground arith
  lookup-insert j k v ((i, w) ∷ m) = ground (arith, lookup-insert j k v m)

  pub lookup-emplace :
      (j k : K) (v : V) (m : Dict K V)
      → lookup k m ≡ none
      → lookup j (emplace k v m) ≡ (if j == k then some v else lookup j m)
  unfolding emplace lookup
  lookup-emplace j k v m h = ground arith

  pub lookup-erase :
      (j k : K) (m : Dict K V) → lookup j (erase k m) ≡ (if j == k then none else lookup j m)
  unfolding erase lookup
  lookup-erase j k [] = ground arith
  lookup-erase j k ((i, w) ∷ m) = ground (arith, lookup-erase j k m)

  -- Each key has one entry.
  abbrev pub NodupKeys : Dict K V → Type κ
  NodupKeys [] = Unit
  NodupKeys ((k, _) ∷ m) = (lookup k m ≡ none) × NodupKeys m

  pub emplace-NodupKeys : (k : K) (v : V) (m : Dict K V) → NodupKeys m → NodupKeys (emplace k v m)
  unfolding emplace
  emplace-NodupKeys k v m h = ground arith

  pub erase-NodupKeys : (k : K) (m : Dict K V) → NodupKeys m → NodupKeys (erase k m)
  unfolding erase
  erase-NodupKeys k [] h = tt
  erase-NodupKeys k ((j, w) ∷ m) (fresh, h) =
      ground (arith, erase-NodupKeys k m h, lookup-erase j k m)

  pub length-emplace :
      (k : K) (v : V) (m : Dict K V) → lookup k m ≡ none → length (emplace k v m) ≡ suc (length m)
  unfolding emplace
  length-emplace k v m h = rw (h, emplace)

  length-erase_absent : (k : K) (m : Dict K V) → lookup k m ≡ none → length (erase k m) ≡ length m
  unfolding erase lookup
  length-erase_absent k [] h = refl
  length-erase_absent k ((j, w) ∷ m) h = ground (arith, length-erase_absent k m)

  pub length-erase :
      (k : K) (m : Dict K V) → NodupKeys m → lookup k m ≢ none → suc (length (erase k m)) ≡ length m
  unfolding erase lookup
  length-erase k [] h n = absurd (n refl)
  length-erase k ((j, w) ∷ m) (fresh, h) n =
      ground (arith, length-erase k m h, length-erase_absent k m)
