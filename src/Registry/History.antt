-- ===== src/Registry/History.antt =====
-- Every state that a program reaches by calls of `register_value` and `remove` of
-- include/registry/in_memory_registry.hpp.
use feedback_ingest.Base.{ℕ, ◌≤◌, ◌<◌, ◌≡◌, ◌∙◌, sym, ap, true, arith, ok, ok-injective, length}
use feedback_ingest.Base.Int.{pos, negsuc, int_eq, int_max}
use feedback_ingest.Registry.{Key, InMemoryRegistry, empty, register_value, has, remove}
use feedback_ingest.Registry.Invariant.{IsValid, empty-IsValid, Issued, issued_count}
use feedback_ingest.Registry.Keys.{
  Stored, register_value_lem, remove_lem, cur_key-remove, present_of_has,
}
use mathlib.Core.Path.{subst}

module _ {ℓ} {V : Type ℓ} (m : ℕ) where
  -- The states after calls that find fewer than `m` values whenever one is added.
  pub data Reach : InMemoryRegistry V → Type ℓ where
    start : Reach empty
    stores :
        {r r' : InMemoryRegistry V} (v : V) (k : Key)
        → Reach r
        → length r.registry < m
        → register_value v r ≡ ok (k, r')
        → Reach r'
    removes : {r r' : InMemoryRegistry V} (k : Key) → Reach r → (remove k r).1 ≡ r' → Reach r'

module _ {ℓ} {V : Type ℓ} {m : ℕ} (fits : m ≤ int_max) where
  -- The invariant, with at most `m` keys handed out.
  pub record IsBelow (r : InMemoryRegistry V) : Type ℓ where
    pub valid : IsValid r
    pub low : issued_count r.cur_key ≤ m

  stores-IsBelow :
      {r : InMemoryRegistry V} (v : V) (k : Key) (r' : InMemoryRegistry V)
      → IsBelow r
      → length r.registry < m
      → register_value v r ≡ ok (k, r')
      → IsBelow r'
  stores-IsBelow {r} v k r' h live e =
      let (k0, r0, e0, s) = register_value_lem v r h.valid (omega arith) in
      subst (λ (t : Key × InMemoryRegistry V). IsBelow t.1) (ok-injective (sym e0 ∙ e))
        (record { valid = s.valid; low = s.peak m h.low live })

  Reach-IsBelow : {r : InMemoryRegistry V} → Reach m r → IsBelow r
  Reach-IsBelow start = record { valid = empty-IsValid; low = omega arith }
  Reach-IsBelow (stores {r' = r'} v k h live e) = stores-IsBelow v k r' (Reach-IsBelow h) live e
  Reach-IsBelow (removes {r = r} k h e) = subst IsBelow e (record {
    valid = (remove_lem r k).2 (Reach-IsBelow h).valid;
    low = rw cur_key-remove (Reach-IsBelow h).low;
  })

  -- For `m` up to 2^31 - 1, in every state that calls of `register_value` and `remove` reach from
  -- the empty registry, where each value is added while fewer than `m` are there, every key with a value is one of
  -- 0 .. m - 1: keys are reused, and count the most values that were there together.
  pub keys_below_peak :
      {r : InMemoryRegistry V} → Reach m r → (k : Key) → has k r ≡ true → Issued m k
  keys_below_peak {r} h (pos i) there = omega (
    arith,
    issued (pos i) (present_of_has r (pos i) there),
    ap issued_count cur,
    (Reach-IsBelow h).low,
  )
    where
      open (Reach-IsBelow h).valid use {issued, cur}
  keys_below_peak {r} h (negsuc i) there =
      (Reach-IsBelow h).valid.issued (negsuc i) (present_of_has r (negsuc i) there)

  -- For `m` up to 2^31 - 1, in every state that calls of `register_value` and `remove` reach from
  -- the empty registry, where each value is added while fewer than `m` are there: if fewer than `m`
  -- values are there now, `register_value` returns, and with what it promises of a valid registry.
  pub register_value-total :
      {r : InMemoryRegistry V}
      → Reach m r
      → (v : V) → length r.registry < m
      → (k : Key) × (r' : InMemoryRegistry V) × (register_value v r ≡ ok (k, r')) × Stored v r k r'
  register_value-total {r} h v live = register_value_lem v r (Reach-IsBelow h).valid (omega arith)
