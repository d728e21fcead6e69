-- ===== src/Stream/Printed.antt =====
-- A number that `std::to_string` has printed can be told from the text, and so can what is behind it.
use feedback_ingest.Base.{◌≡◌, ap, sym, ◌∙◌, none, true, Option, some, [], ◌∷◌, ◌++◌, Bytes, nat_eq}
use mathlib.Core.List.{tail-eq_of_cons-eq}
use feedback_ingest.Base.Int.{ℤ}
use feedback_ingest.Base.Decimal.{to_string}
use feedback_ingest.Stream.{Stream, continue_with, extract_int}
use feedback_ingest.Stream.Ints.{IsInt, AtNonDigit, extract_int-to_string}

-- What an extraction of an `int` finds in a text.
abbrev taken : Bytes → Option ℤ × Stream
taken s = extract_int (record { rest = s; good = true })

abbrev or_zero : ℤ → Option ℤ → ℤ
or_zero i none = i
or_zero i (some j) = j

-- A printed `int` and what is behind it can be told from the text.
pub printed-injective :
    (i j : ℤ) (r s : Bytes)
    → IsInt i
    → IsInt j
    → AtNonDigit r
    → AtNonDigit s
    → to_string i ++ r ≡ to_string j ++ s
    → (i ≡ j) × ((continue_with r).rest ≡ (continue_with s).rest)
printed-injective i j r s hi hj hr hs e =
    let same : (some i, continue_with r) ≡ (some j, continue_with s) =
      sym (extract_int-to_string i r hi hr) ∙ ap taken e ∙ extract_int-to_string j s hj hs in
    (
      ap (λ (t : Option ℤ × Stream). or_zero i t.0) same,
      ap (λ (t : Option ℤ × Stream). t.1.rest) same,
    )

pub cancel_prefix : (l r s : Bytes) → l ++ r ≡ l ++ s → r ≡ s
cancel_prefix [] r s e = e
cancel_prefix (c ∷ l) r s e = cancel_prefix l r s (tail-eq_of_cons-eq e)
