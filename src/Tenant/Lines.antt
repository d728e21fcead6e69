-- ===== src/Tenant/Lines.antt =====
-- What one line of the tenant file does (`register_entry` of include/tenant/read_tenant_file.hpp).
use feedback_ingest.Base.{◌≡◌, refl, false}
use feedback_ingest.Base.{some, ◌∷◌, ◌++◌, Bytes}
use feedback_ingest.Base.Int.{ℤ, int_eq}
use feedback_ingest.Base.Decimal.{to_string}
use feedback_ingest.Stream.{is_digit, is_space, extract_int, continue_with}
use feedback_ingest.Stream.Words.{IsWord, extract_word-space, extract_word_last}
use feedback_ingest.Stream.Ints.{IsInt, extract_int-to_string, read_int-some}
use feedback_ingest.Utils.{is_blank, skip_spaces_blank}
use feedback_ingest.Tenant.{TenantInfo, parse_entry}

-- The number of a line that is not blank has a value.
pub parse_entry_index :
    (entry : Bytes) → is_blank entry ≡ false → (i : ℤ) × ((parse_entry entry).0 ≡ some i)
unfolding parse_entry extract_int
parse_entry_index entry h = let (c, s, e) = skip_spaces_blank entry h in rw e (read_int-some c s)

-- A line of the file as the README describes it: `<tenant_id> <email> <organisation>`.
abbrev pub tenant_line : ℤ → TenantInfo → Bytes
tenant_line i t = to_string i ++ (b' ' ∷ (t.owner_email ++ (b' ' ∷ t.organisation)))

-- Such a line is read as the number and the tenant that it shows.
pub parse_entry-tenant_line :
    (i : ℤ) (t : TenantInfo)
    → IsInt i
    → IsWord t.owner_email
    → IsWord t.organisation
    → parse_entry (tenant_line i t) ≡ (some i, t)
unfolding parse_entry continue_with
parse_entry-tenant_line i t fits email organisation = rw (
  extract_int-to_string i (b' ' ∷ (t.owner_email ++ (b' ' ∷ t.organisation))) fits
      (unfold is_digit in refl),
  extract_word-space t.owner_email (b' ' ∷ t.organisation) email (unfold is_space in refl),
  extract_word_last t.organisation organisation,
)
