-- ===== src/Base/Decimal.antt =====
-- `std::to_string` and fmt's `{:d}` for `int`.
pub mod Value
pub mod Injective
use Prim.Native.Nat.{ℕ, zero, suc, ◌+◌, ◌/◌, ◌%◌}
use mathlib.Core.List.{List, [], ◌∷◌, ◌++◌}
use feedback_ingest.Base.Equality.{ltb}
use feedback_ingest.Base.Text.{Bytes}
use feedback_ingest.Base.Int.{ℤ, pos, negsuc}
use mathlib.Core.Bool.{true, false}

-- The digits of `n`, the last one first chosen. A number has fewer digits than its fuel `suc n`.
unfoldable pub digits : ℕ → ℕ → Bytes
digits zero n = []
digits (suc fuel) n = elim (ltb n 10) [
  | true ↦ (b'0' + n) ∷ []
  | false ↦ digits fuel (n / 10) ++ ((b'0' + n % 10) ∷ [])
]

unfoldable pub to_string : ℤ → Bytes
unfolding digits
to_string (pos n) = digits (suc n) n
to_string (negsuc n) = b'-' ∷ digits (suc (suc n)) (suc n)
