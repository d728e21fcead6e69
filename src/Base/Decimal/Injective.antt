-- ===== src/Base/Decimal/Injective.antt =====
-- `std::to_string` tells integers apart.
use Prim.Native.Nat.{ℕ, suc}
use mathlib.Core.Path.{◌≡◌, sym, ap, ◌∙◌}
use mathlib.Core.Logic.{◌≢◌}
use mathlib.Core.List.{[], ◌∷◌, tail-eq_of_cons-eq}
use native.Mathlib.Omega.{arith}
use feedback_ingest.Base.Lists.{All}
use feedback_ingest.Base.Text.{Bytes}
use feedback_ingest.Base.Int.{ℤ, pos, negsuc}
use feedback_ingest.Base.Decimal.{digits, to_string}
use feedback_ingest.Base.Decimal.Value.{IsDigit, value, digits-IsDigit, value-digits}

digits-injective : (n m : ℕ) → digits (suc n) n ≡ digits (suc m) m → n ≡ m
digits-injective n m e =
    sym (value-digits (suc n) n (omega arith))
    ∙ ap (value 0) e
    ∙ value-digits (suc m) m (omega arith)

no_sign : (ds rest : Bytes) → All IsDigit ds → ds ≢ b'-' ∷ rest
no_sign [] rest _ e = cc
no_sign (d ∷ ds) rest (h, _) e = grind arith

pub to_string-injective : (i j : ℤ) → to_string i ≡ to_string j → i ≡ j
unfolding to_string
to_string-injective (pos n) (pos m) e = ap pos (digits-injective n m e)
to_string-injective (pos n) (negsuc m) e =
    absurd (no_sign (digits (suc n) n) _ (digits-IsDigit (suc n) n) e)
to_string-injective (negsuc n) (pos m) e =
    absurd (no_sign (digits (suc m) m) _ (digits-IsDigit (suc m) m) (sym e))
to_string-injective (negsuc n) (negsuc m) e =
    let same : suc n ≡ suc m = digits-injective (suc n) (suc m) (tail-eq_of_cons-eq e) in
    ap negsuc (omega (arith, same))
