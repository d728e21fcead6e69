-- ===== src/Base/Int.antt =====
-- `int`, a 32-bit signed integer, as an integer with its range written out.
use Prim.Native.Nat.{ℕ, zero, suc, ◌-◌, ◌^◌}
use native.Mathlib.Decide.{ℕ_discrete}
use feedback_ingest.Base.Equality.{Eq, ltb, if◌then◌else◌}
use feedback_ingest.Base.Failure.{Outcome, ok, undefined}

-- `negsuc n` is -(n + 1).
pub data ℤ : Type 0 where
  pos : ℕ → ℤ
  negsuc : ℕ → ℤ

ℤ_discrete : Discrete ℤ
unfolding ℕ_discrete
ℤ_discrete = hlevel ℕ_discrete

instance unfoldable pub int_eq : Eq ℤ
unfolding ℤ_discrete
int_eq = record { dec = ℤ_discrete }

-- The largest value of `int`.
abbrev pub int_max : ℕ
int_max = 2 ^ 31 - 1

-- The value of `++n`: past the largest `int` the behaviour is undefined.
unfoldable pub increment : ℤ → Outcome ℤ
increment (pos n) = if ltb n int_max then ok (pos (suc n)) else undefined
increment (negsuc zero) = ok (pos 0)
increment (negsuc (suc n)) = ok (negsuc n)
