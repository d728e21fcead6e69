-- ===== src/Registry/Returned.antt =====
-- What a call of `register_value` of include/registry/in_memory_registry.hpp that returned has done.
use feedback_ingest.Base.{
  ℕ, ◌≡◌, ◌<◌, ◌∙◌, refl, sym, arith, List, [], ◌∷◌, ok, ok-injective, length, undefined,
  Bool-cases, inl, inr, ltb,
}
use feedback_ingest.Base.Int.{pos, int_max, increment}
use mathlib.Core.Path.{subst}
use feedback_ingest.Registry.{Key, InMemoryRegistry, next_key, register_value}
use feedback_ingest.Registry.Invariant.{IsValid}
use feedback_ingest.Registry.Keys.{Stored, register_value_lem}

none_of_length : (ks : List Key) → length ks ≡ 0 → ks ≡ []
none_of_length [] h = refl
none_of_length (k ∷ ks) h = absurd (omega arith)

module _ {ℓ} {V : Type ℓ} where
  register_value_full :
      (v : V) (r : InMemoryRegistry V) (n : ℕ)
      → r.unused ≡ []
      → r.cur_key ≡ pos n
      → ¬ (n < int_max)
      → register_value v r ≡ undefined
  unfolding register_value next_key increment
  register_value_full v r n e c full = ground arith

  -- If `register_value` returned a key, it has done with it what `register_value_lem` says, even
  -- where there may be no room.
  pub register_value-Stored :
      (v : V) (r : InMemoryRegistry V)
      → IsValid r
      → {k : Key} {r' : InMemoryRegistry V} → register_value v r ≡ ok (k, r')
      → Stored v r k r'
  register_value-Stored v r h {k} {r'} e = elim (Bool-cases (ltb (length r.registry) int_max)) [
    | inl room ↦
        let (k₀, r₀, e₀, s) = register_value_lem v r h (ground arith) in
        subst (λ (t : Key × InMemoryRegistry V). Stored v r t.0 t.1) (ok-injective (sym e₀ ∙ e)) s
    | inr full ↦ absurd (
        cc (
          e,
          register_value_full v r h.bound (none_of_length r.unused (ground (arith, h.size, h.fits)))
              h.cur (λ low. ground (arith, h.size, h.fits)),
        ))
  ]
