-- ===== src/Registry/Keys.antt =====
-- What `register_value`, `get`, `has` and `remove` of include/registry/in_memory_registry.hpp
-- return, and what they leave.
use feedback_ingest.Base.{ℕ, suc, ◌≤◌, ◌<◌, ◌≡◌, ◌≢◌, refl, sym, ap, ◌∙◌, true, false, arith}
use feedback_ingest.Base.{none, some, List, [], ◌∷◌, ok, throws, out_of_range}
use feedback_ingest.Base.{◌==◌, if◌then◌else◌, Option-cases, inl, inr, length}
use feedback_ingest.Base.Int.{pos, int_eq, int_max}
use mathlib.Core.Path.{subst}
use feedback_ingest.Base.Dict
use feedback_ingest.Registry.{Key, InMemoryRegistry, next_key, register_value, get, has, remove}
use feedback_ingest.Registry.Invariant.{
  IsValid, issued_count, Free, unissued-absent, extended, extended-IsValid, reused, reused-IsValid,
  removed, removed-IsValid,
}

module _ {ℓ} {V : Type ℓ} where
  register_value-reused :
      (v : V) (r : InMemoryRegistry V) (k : Key) (ks : List Key)
      → r.unused ≡ k ∷ ks
      → register_value v r ≡ ok (k, reused v k ks r)
  unfolding register_value
  register_value-reused v r k ks e = rw (e, next_key)

  register_value-extended :
      (v : V) (r : InMemoryRegistry V) (n : ℕ)
      → r.unused ≡ []
      → r.cur_key ≡ pos n
      → n < int_max
      → register_value v r ≡ ok (pos n, extended v n r)
  unfolding register_value
  register_value-extended v r n e c room = ground arith

  get-emplace :
      (v : V) (r r' : InMemoryRegistry V) (k j : Key)
      → Dict.lookup k r.registry ≡ none
      → r'.registry ≡ Dict.emplace k v r.registry
      → get j r' ≡ (if j == k then ok v else get j r)
  unfolding get
  get-emplace v r r' k j absent e =
      rw e (ground (arith, Dict.lookup-emplace j k v r.registry absent))

  has_absent :
      (r : InMemoryRegistry V) (k : Key) → Dict.lookup k r.registry ≡ none → has k r ≡ false
  unfolding has
  has_absent r k e = ground arith

  has_present :
      (r : InMemoryRegistry V) (k : Key) (w : V)
      → Dict.lookup k r.registry ≡ some w
      → has k r ≡ true
  unfolding has
  has_present r k w e = ground arith

  pub present_of_has :
      (r : InMemoryRegistry V) (k : Key) → has k r ≡ true → Dict.lookup k r.registry ≢ none
  unfolding has
  present_of_has r k h e = ground arith

  remove_absent :
      (r : InMemoryRegistry V) (k : Key) → Dict.lookup k r.registry ≡ none → remove k r ≡ (false, r)
  unfolding remove
  remove_absent r k e = ground arith

  remove_present :
      (r : InMemoryRegistry V) (k : Key)
      → Dict.lookup k r.registry ≢ none
      → remove k r ≡ (true, removed k r)
  unfolding remove
  remove_present r k n = ground arith

  get-erase :
      (r : InMemoryRegistry V) (k j : Key)
      → get j (removed k r) ≡ (if j == k then throws out_of_range else get j r)
  unfolding get
  get-erase r k j = ground (arith, Dict.lookup-erase j k r.registry)

  get_absent :
      (r : InMemoryRegistry V) (k j : Key)
      → Dict.lookup k r.registry ≡ none
      → get j r ≡ (if j == k then throws out_of_range else get j r)
  unfolding get
  get_absent r k j e = ground arith

  -- What a call of `register_value` with result `k` promises of the registry before and after it.
  pub record Stored (v : V) (r : InMemoryRegistry V) (k : Key) (r' : InMemoryRegistry V)
      : Type ℓ where
    pub valid : IsValid r'
    pub fresh : has k r ≡ false
    pub grows : length r'.registry ≡ suc (length r.registry)
    pub peak :
        (m : ℕ) → issued_count r.cur_key ≤ m → length r.registry < m → issued_count r'.cur_key ≤ m
    pub reads : (j : Key) → get j r' ≡ (if j == k then ok v else get j r)

  extended-Stored :
      (v : V) (r : InMemoryRegistry V) (h : IsValid r)
      → length r.unused ≡ 0
      → h.bound < int_max
      → Stored v r (pos h.bound) (extended v h.bound r)
  extended-Stored v r h unused_none room = record {
    valid = extended-IsValid v r h room;
    fresh = has_absent r _ absent;
    grows = Dict.length-emplace (pos h.bound) v r.registry absent;
    peak = λ m low live. omega (arith, h.size, ap issued_count h.cur, unused_none);
    reads = λ j. get-emplace v r _ _ j absent refl;
  }
    where
      absent : Dict.lookup (pos h.bound) r.registry ≡ none
      absent = unissued-absent h.bound r.registry h.issued

  reused-Stored :
      (v : V) (r : InMemoryRegistry V)
      → IsValid r
      → (k : Key) (ks : List Key) → r.unused ≡ k ∷ ks
      → Stored v r k (reused v k ks r)
  reused-Stored v r h k ks e = record {
    valid = reused-IsValid v r h k ks e;
    fresh = has_absent r _ split.0;
    grows = Dict.length-emplace k v r.registry split.0;
    peak = λ m low live. low;
    reads = λ j. get-emplace v r _ _ j split.0 refl;
  }
    where
      split : Free r.registry (k ∷ ks)
      split = subst (Free r.registry) e h.free

  register_value_on :
      (v : V) (r : InMemoryRegistry V) (h : IsValid r) (us : List Key)
      → r.unused ≡ us
      → length r.registry < int_max
      → (k : Key) × (r' : InMemoryRegistry V) × (register_value v r ≡ ok (k, r')) × Stored v r k r'
  register_value_on v r h [] e room = (
    pos h.bound,
    extended v h.bound r,
    register_value-extended v r h.bound e h.cur low,
    extended-Stored v r h (ap length e) low,
  )
    where
      low : h.bound < int_max
      low = omega (arith, h.size, ap length e)
  register_value_on v r h (k ∷ ks) e room =
      (k, reused v k ks r, register_value-reused v r k ks e, reused-Stored v r h k ks e)

  -- In a valid registry with fewer than 2^31 - 1 live values, `register_value` returns. The key it
  -- hands out had no value; afterwards the key has the value, every other key reads as before, and
  -- the registry is valid again.
  pub register_value_lem :
      (v : V) (r : InMemoryRegistry V)
      → IsValid r
      → length r.registry < int_max
      → (k : Key) × (r' : InMemoryRegistry V) × (register_value v r ≡ ok (k, r')) × Stored v r k r'
  register_value_lem v r h = register_value_on v r h r.unused refl

  -- `remove` tells whether the key had a value. Afterwards the key has none, every other key reads
  -- as before, and a valid registry stays valid.
  pub remove_lem :
      (r : InMemoryRegistry V) (k : Key)
      → ((remove k r).0 ≡ has k r)
        × ((j : Key) → get j (remove k r).1 ≡ (if j == k then throws out_of_range else get j r))
        × (IsValid r → IsValid (remove k r).1)
  remove_lem r k = elim (Option-cases (Dict.lookup k r.registry)) [
    | inl e ↦ rw (remove_absent r k e) (sym (has_absent r k e), λ j. get_absent r k j e, λ h. h)
    | inr (w, e) ↦
        rw (remove_present r k (λ z. cc))
          (sym (has_present r k w e), λ j. get-erase r k j, λ h. removed-IsValid r h k (λ z. cc))
  ]

  -- The key of a removed value is the next one handed out, and only its value has changed.
  pub register_value-remove :
      (v : V) (r : InMemoryRegistry V) (k : Key)
      → has k r ≡ true
      → (r' : InMemoryRegistry V) × (register_value v (remove k r).1 ≡ ok (k, r'))
        × ((j : Key) → get j r' ≡ (if j == k then ok v else get j r))
        × (r'.unused ≡ r.unused)
  register_value-remove v r k there = (
    reused v k r.unused (removed k r),
    rw (remove_present r k (present_of_has r k there))
        (register_value-reused v (removed k r) k r.unused refl),
    λ j. ground (
      arith,
      get-emplace v (removed k r) (reused v k r.unused (removed k r)) k j
          (ground (arith, Dict.lookup-erase k k r.registry)) refl,
      get-erase r k j,
    ),
    refl,
  )

  pub has_of_get : (r : InMemoryRegistry V) (k : Key) (v : V) → get k r ≡ ok v → has k r ≡ true
  unfolding get has
  has_of_get r k v e = ground arith

  pub get_of_has : (r : InMemoryRegistry V) (k : Key) → has k r ≡ true → (v : V) × (get k r ≡ ok v)
  unfolding get has
  get_of_has r k there = elim (Option-cases (Dict.lookup k r.registry)) [
    | inl e ↦ absurd (ground arith)
    | inr (w, e) ↦ (w, ground arith)
  ]

  pub cur_key-remove : (r : InMemoryRegistry V) (k : Key) → (remove k r).1.cur_key ≡ r.cur_key
  unfolding remove
  cur_key-remove r k = ground arith

  module _ {v : V} {r r' : InMemoryRegistry V} {k : Key} (s : Stored v r k r') where
    pub Stored-self : get k r' ≡ ok v
    Stored-self = ground (arith, s.reads k)

    pub Stored-kept : (j : Key) → has j r ≡ true → get j r' ≡ get j r
    Stored-kept j there = elim (int_eq.dec j k) [
      | yes p ↦ cc (s.fresh, ap (λ (i : Key). has i r) p)
      | no n ↦ ground (arith, s.reads j, n)
    ]

    pub Stored-has : (j : Key) → has j r ≡ true → has j r' ≡ true
    Stored-has j there =
        let (w, e) = get_of_has r j there in has_of_get r' j w (Stored-kept j there ∙ e)

    pub Stored-has_self : has k r' ≡ true
    Stored-has_self = has_of_get r' k v Stored-self
