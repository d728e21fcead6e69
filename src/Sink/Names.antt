-- ===== src/Sink/Names.antt =====
-- The names of the files of include/sink/json_sink.hpp.
use feedback_ingest.Base.{◌≡◌, refl, Bytes, nat_eq}
use mathlib.Core.List.{tail-eq_of_cons-eq, append_cancel_right}
use feedback_ingest.Base.Int.{ℤ}
use feedback_ingest.Base.Decimal.{to_string}
use feedback_ingest.Base.Decimal.Injective.{to_string-injective}
use feedback_ingest.Stream.{is_digit, continue_with}
use feedback_ingest.Stream.Ints.{IsInt}
use feedback_ingest.Stream.Printed.{printed-injective, cancel_prefix}
use feedback_ingest.Sink.{create_json_file_name}

-- Two writes to one file are of one tenant, one source and one time, where the ids fit an `int`:
-- files of different tenants, of different sources, or of different times, never meet.
pub create_json_file_name-injective :
    (base : Bytes) (t₁ t₂ source₁ source₂ tenant₁ tenant₂ : ℤ)
    → IsInt source₁
    → IsInt source₂
    → IsInt tenant₁
    → IsInt tenant₂
    → create_json_file_name base t₁ source₁ tenant₁ ≡ create_json_file_name base t₂ source₂ tenant₂
    → (source₁ ≡ source₂) × (tenant₁ ≡ tenant₂) × (t₁ ≡ t₂)
unfolding create_json_file_name continue_with is_digit
create_json_file_name-injective base t₁ t₂ source₁ source₂ tenant₁ tenant₂ s₁ s₂ n₁ n₂ e =
    let (tenant, rest) =
      printed-injective tenant₁ tenant₂ _ _ n₁ n₂ refl refl
        (tail-eq_of_cons-eq (cancel_prefix base _ _ e)) in
    let (source, stamp) =
      printed-injective source₁ source₂ _ _ s₁ s₂ refl refl (tail-eq_of_cons-eq rest) in
    (
      source,
      tenant,
      to_string-injective t₁ t₂
          (append_cancel_right (to_string t₁) (to_string t₂) _ (tail-eq_of_cons-eq stamp)),
    )
