-- ===== src/Base/Decimal/Value.antt =====
-- The digits that `to_string` writes spell the number.
use Prim.Native.Nat.{ℕ, zero, suc, ◌+◌, ◌-◌, ◌*◌, ◌/◌, ◌%◌, ◌≤◌, ◌<◌}
use mathlib.Core.Path.{◌≡◌}
use mathlib.Core.Logic.{◌≢◌, inl, inr}
use mathlib.Core.Bool.{true, false}
use mathlib.Core.List.{[], ◌∷◌, ◌++◌, foldl, foldl-append, cons-ne-nil}
use native.Mathlib.Omega.{arith}
use feedback_ingest.Base.Equality.{ltb, Bool-cases}
use feedback_ingest.Base.Lists.{All, All-append}
use feedback_ingest.Base.Text.{Bytes}
use feedback_ingest.Base.Decimal.{digits}

append_one-ne-nil : (xs : Bytes) (x : ℕ) → xs ++ (x ∷ []) ≢ []
append_one-ne-nil [] x = cons-ne-nil x []
append_one-ne-nil (y ∷ ys) x = cons-ne-nil y _

abbrev pub IsDigit : ℕ → Type 0
IsDigit digit = (b'0' ≤ digit) × (digit ≤ b'9')

-- The number that digits spell behind `n`.
abbrev pub value : ℕ → Bytes → ℕ
value = foldl (λ total digit. total * 10 + (digit - b'0'))

digits_small : (fuel n : ℕ) → ltb n 10 ≡ true → digits (suc fuel) n ≡ (b'0' + n) ∷ []
unfolding digits
digits_small fuel n e = rw (e, digits)

digits_large :
    (fuel n : ℕ)
    → ltb n 10 ≡ false
    → digits (suc fuel) n ≡ digits fuel (n / 10) ++ ((b'0' + n % 10) ∷ [])
unfolding digits
digits_large fuel n e = rw (e, digits)

pub digits-IsDigit : (fuel n : ℕ) → All IsDigit (digits fuel n)
digits-IsDigit zero n = unfold digits in tt
digits-IsDigit (suc fuel) n = elim (Bool-cases (ltb n 10)) [
  | inl small ↦ rw (digits_small fuel n small) (ground arith)
  | inr large ↦
      rw (digits_large fuel n large)
        (All-append IsDigit (digits fuel (n / 10)) _ (digits-IsDigit fuel (n / 10)) (omega arith))
]

pub value-digits : (fuel n : ℕ) → n < fuel → value 0 (digits fuel n) ≡ n
value-digits zero n h = absurd (omega arith)
value-digits (suc fuel) n h = elim (Bool-cases (ltb n 10)) [
  | inl small ↦ rw (digits_small fuel n small) (omega arith)
  | inr large ↦
      rw (digits_large fuel n large, foldl-append)
        (omega (arith, value-digits fuel (n / 10) (ground arith)))
]

pub digits-ne-nil : (fuel n : ℕ) → n < fuel → digits fuel n ≢ []
digits-ne-nil zero n h = absurd (omega arith)
digits-ne-nil (suc fuel) n h = elim (Bool-cases (ltb n 10)) [
  | inl small ↦ rw (digits_small fuel n small) (cons-ne-nil _ _)
  | inr large ↦ rw (digits_large fuel n large) (append_one-ne-nil (digits fuel (n / 10)) _)
]
