-- ===== src/Types/Accepted.antt =====
-- Which types the tests on types accept.
use feedback_ingest.Base.{ℕ, ◌≡◌, refl, Bool, true, false}
use feedback_ingest.Types.{Unqualified, duration, CppType, is_duration_of, is_duration}

abbrev pub IsDuration : Unqualified → Type 0
IsDuration t = (rep period : ℕ) × (t ≡ duration rep period)

is_duration_of-duration :
    (c v : Bool) (rep period : ℕ) → is_duration_of c v (duration rep period) ≡ true
unfolding is_duration_of
is_duration_of-duration false false rep period = refl
is_duration_of-duration true false rep period = refl
is_duration_of-duration false true rep period = refl
is_duration_of-duration true true rep period = refl

IsDuration-of : (c v : Bool) (t : Unqualified) → is_duration_of c v t ≡ true → IsDuration t
unfolding is_duration_of
IsDuration-of c v (duration rep period) e = (rep, period, refl)
IsDuration-of false false t e = absurd (cc)
IsDuration-of true false t e = absurd (cc)
IsDuration-of false true t e = absurd (cc)
IsDuration-of true true t e = absurd (cc)

-- The test accepts the durations, whatever their qualifiers, and no other type.
pub is_duration_lem :
    (t : CppType)
    → (is_duration t ≡ true → IsDuration t.unqualified)
      × (IsDuration t.unqualified → is_duration t ≡ true)
unfolding is_duration
is_duration_lem t = (
  IsDuration-of t.is_const t.is_volatile t.unqualified,
  λ (rep, period, e). rw e (is_duration_of-duration t.is_const t.is_volatile rep period),
)
