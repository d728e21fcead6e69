-- ===== src/Registry/Invariant.antt =====
-- What holds of a registry in every state that its operations reach.
use feedback_ingest.Base.{ℕ, suc, ◌+◌, ◌≤◌, ◌<◌, ◌≡◌, ◌≢◌, refl, arith}
use feedback_ingest.Base.{none, List, [], ◌∷◌, All, length}
use feedback_ingest.Base.{Option-cases, inl, inr, ap}
use feedback_ingest.Base.Int.{pos, negsuc, int_eq, int_max}
use mathlib.Core.Path.{subst, sym}
use feedback_ingest.Base.Dict
use feedback_ingest.Base.Dict.{Dict, NodupKeys}
use feedback_ingest.Registry.{Key, InMemoryRegistry, empty}

-- A key that some call has handed out, when `n` is the next new one.
abbrev pub Issued : ℕ → Key → Type 0
Issued n (pos m) = m < n
Issued n (negsuc m) = ⊥

-- A key that was never issued is none of the unused ones.
Issued-ne : (n : ℕ) (ks : List Key) → All (Issued n) ks → All (λ j. pos n ≢ j) ks
Issued-ne n [] _ = tt
Issued-ne n (pos m ∷ ks) (low, rest) = (λ e. grind arith, Issued-ne n ks rest)
Issued-ne n (negsuc m ∷ ks) (low, rest) = absurd low

Issued-suc : (n : ℕ) (k : Key) → Issued n k → Issued (suc n) k
Issued-suc n (pos m) h = omega arith
Issued-suc n (negsuc m) h = h

All-Issued-suc : (n : ℕ) (ks : List Key) → All (Issued n) ks → All (Issued (suc n)) ks
All-Issued-suc n [] _ = tt
All-Issued-suc n (k ∷ ks) (low, rest) = (Issued-suc n k low, All-Issued-suc n ks rest)

-- The number of keys handed out so far.
abbrev pub issued_count : Key → ℕ
issued_count (pos n) = n
issued_count (negsuc n) = 0

module _ {ℓ} {V : Type ℓ} where
  -- The keys are distinct, and none of them has a value.
  abbrev pub Free : Dict Key V → List Key → Type ℓ
  Free m [] = Unit
  Free m (k ∷ ks) = (Dict.lookup k m ≡ none) × All (λ j. k ≢ j) ks × Free m ks

  -- `bound` is the number of keys ever handed out. Each of them has a value or is unused.
  pub record IsValid (r : InMemoryRegistry V) : Type ℓ where
    pub bound : ℕ
    pub cur : r.cur_key ≡ pos bound
    pub fits : bound ≤ int_max
    pub nodup : NodupKeys r.registry
    pub free : Free r.registry r.unused
    pub issued : (k : Key) → Dict.lookup k r.registry ≢ none → Issued bound k
    pub unused_issued : All (Issued bound) r.unused
    pub size : length r.registry + length r.unused ≡ bound

  pub empty-IsValid : IsValid (empty {V = V})
  empty-IsValid = record {
    bound = 0;
    cur = refl;
    fits = omega arith;
    nodup = tt;
    free = tt;
    issued = λ k n. absurd (n (Dict.lookup-nil k));
    unused_issued = tt;
    size = omega arith;
  }

  Free-emplace :
      (k : Key) (v : V) (m : Dict Key V) (ks : List Key)
      → Dict.lookup k m ≡ none
      → All (λ j. k ≢ j) ks
      → Free m ks
      → Free (Dict.emplace k v m) ks
  Free-emplace k v m [] new _ _ = tt
  Free-emplace k v m (j ∷ ks) new (ne, other) (absent, distinct, free) = (
    ground (arith, Dict.lookup-emplace j k v m new, ne),
    distinct,
    Free-emplace k v m ks new other free,
  )

  Free-erase : (k : Key) (m : Dict Key V) (ks : List Key) → Free m ks → Free (Dict.erase k m) ks
  Free-erase k m [] _ = tt
  Free-erase k m (j ∷ ks) (absent, distinct, free) =
      (ground (arith, Dict.lookup-erase j k m), distinct, Free-erase k m ks free)

  -- A key with a value is none of the unused ones.
  Free-ne :
      (k : Key) (m : Dict Key V) (ks : List Key)
      → Dict.lookup k m ≢ none
      → Free m ks
      → All (λ j. k ≢ j) ks
  Free-ne k m [] _ _ = tt
  Free-ne k m (j ∷ ks) there (absent, _, free) =
      (λ e. there (rw e absent), Free-ne k m ks there free)

  pub unissued-absent :
      (n : ℕ) (m : Dict Key V)
      → ((k : Key) → Dict.lookup k m ≢ none → Issued n k)
      → Dict.lookup (pos n) m ≡ none
  unissued-absent n m issued = elim (Option-cases (Dict.lookup (pos n) m)) [
    | inl e ↦ e
    | inr (w, e) ↦ let low : n < n = issued (pos n) (λ z. cc) in absurd (omega arith)
  ]

  Issued-emplace :
      (n : ℕ) (v : V) (m : Dict Key V)
      → Dict.lookup (pos n) m ≡ none
      → ((k : Key) → Dict.lookup k m ≢ none → Issued n k)
      → (k : Key) → Dict.lookup k (Dict.emplace (pos n) v m) ≢ none
      → Issued (suc n) k
  Issued-emplace n v m absent issued (pos i) there =
      ground (arith, Dict.lookup-emplace (pos i) (pos n) v m absent, issued (pos i))
  Issued-emplace n v m absent issued (negsuc i) there =
      ground (arith, Dict.lookup-emplace (negsuc i) (pos n) v m absent, issued (negsuc i))

  -- The registry after a value was stored under a key that was unused.
  abbrev pub reused : V → Key → List Key → InMemoryRegistry V → InMemoryRegistry V
  reused v k ks r = record r { unused = ks; registry = Dict.emplace k v r.registry }

  -- The registry after a value was stored under the new key `n`.
  abbrev pub extended : V → ℕ → InMemoryRegistry V → InMemoryRegistry V
  extended v n r = record r { cur_key = pos (suc n); registry = Dict.emplace (pos n) v r.registry }

  pub extended-IsValid :
      (v : V) (r : InMemoryRegistry V) (h : IsValid r)
      → h.bound < int_max
      → IsValid (extended v h.bound r)
  extended-IsValid v r h room = record {
    bound = suc h.bound;
    cur = refl;
    fits = room;
    nodup = Dict.emplace-NodupKeys (pos h.bound) v r.registry h.nodup;
    free =
        Free-emplace (pos h.bound) v r.registry r.unused absent
          (Issued-ne h.bound r.unused h.unused_issued) h.free;
    issued = Issued-emplace h.bound v r.registry absent h.issued;
    unused_issued = All-Issued-suc h.bound r.unused h.unused_issued;
    size = omega (arith, Dict.length-emplace (pos h.bound) v r.registry absent);
  }
    where
      absent : Dict.lookup (pos h.bound) r.registry ≡ none
      absent = unissued-absent h.bound r.registry h.issued

  pub reused-IsValid :
      (v : V) (r : InMemoryRegistry V) (h : IsValid r) (k : Key) (ks : List Key)
      → r.unused ≡ k ∷ ks
      → IsValid (reused v k ks r)
  reused-IsValid v r h k ks e = record {
    bound = h.bound;
    cur = h.cur;
    fits = h.fits;
    nodup = Dict.emplace-NodupKeys k v r.registry h.nodup;
    free = Free-emplace k v r.registry ks split.0 split.1 split.2;
    issued = λ j there. elim (int_eq.dec j k) [
      | yes p ↦ subst (Issued h.bound) (sym p) low.0
      | no n ↦
          h.issued j (λ z. there (ground (arith, Dict.lookup-emplace j k v r.registry split.0)))
    ];
    unused_issued = low.1;
    size = omega (arith, Dict.length-emplace k v r.registry split.0, ap length e);
  }
    where
      split : Free r.registry (k ∷ ks)
      split = subst (Free r.registry) e h.free

      low : All (Issued h.bound) (k ∷ ks)
      low = subst (All (Issued h.bound)) e h.unused_issued

  -- The registry after a value was removed.
  abbrev pub removed : Key → InMemoryRegistry V → InMemoryRegistry V
  removed k r = record r { unused = k ∷ r.unused; registry = Dict.erase k r.registry }

  pub removed-IsValid :
      (r : InMemoryRegistry V)
      → IsValid r
      → (k : Key) → Dict.lookup k r.registry ≢ none
      → IsValid (removed k r)
  removed-IsValid r h k there = record {
    bound = h.bound;
    cur = h.cur;
    fits = h.fits;
    nodup = Dict.erase-NodupKeys k r.registry h.nodup;
    free = (
      ground (arith, Dict.lookup-erase k k r.registry),
      Free-ne k r.registry r.unused there h.free,
      Free-erase k r.registry r.unused h.free,
    );
    issued = λ j left. h.issued j (λ z. left (ground (arith, Dict.lookup-erase j k r.registry)));
    unused_issued = (h.issued k there, h.unused_issued);
    size = omega (arith, h.size, Dict.length-erase k r.registry h.nodup there);
  }
