-- ===== src/DataSource/Tenants.antt =====
-- The list of subscribing tenants at the end of a loader line.
use feedback_ingest.Base.{
  ℕ, suc, zero, ◌<◌, ◌≡◌, refl, arith, List, [], ◌∷◌, ◌++◌, Bytes, All, length,
}
use feedback_ingest.Base.{Outcome, ok, undefined, >>=-ok, traverse}
use feedback_ingest.Base.Int.{ℤ, int_eq}
use feedback_ingest.Base.Decimal.{to_string}
use feedback_ingest.Base.Dict
use feedback_ingest.Registry.{Key}
use feedback_ingest.Stream.{is_digit, continue_with}
use feedback_ingest.Stream.Ints.{IsInt, AtNonDigit, extract_int-space}
use feedback_ingest.Tenant.{EntryMap}
use feedback_ingest.DataSource.{read_tenants}

-- The numbers, each behind a space, and what follows them on the line.
abbrev pub tenants_text : List ℤ → Bytes → Bytes
tenants_text [] r = r
tenants_text (i ∷ is) r = b' ' ∷ (to_string i ++ tenants_text is r)

-- The keys of the numbers, or the exception of the first number that the map lacks.
abbrev pub find_tenants : EntryMap → List ℤ → Outcome (List Key)
find_tenants entry_map = traverse (λ i. Dict.lookup_at i entry_map)

pub tenants_text-AtNonDigit :
    (is : List ℤ) (r : Bytes) → AtNonDigit r → AtNonDigit (tenants_text is r)
tenants_text-AtNonDigit [] r h = h
tenants_text-AtNonDigit (i ∷ is) r h = unfold is_digit in refl

-- As many numbers as the count says are looked up in the map.
pub read_tenants-tenants_text :
    (m : EntryMap) (is : List ℤ) (r : Bytes)
    → All IsInt is
    → AtNonDigit r
    → read_tenants (length is) m (continue_with (tenants_text is r)) ≡ find_tenants m is
unfolding read_tenants continue_with
read_tenants-tenants_text m [] r _ _ = refl
read_tenants-tenants_text m (i ∷ is) r (hi, his) h = rw (
  extract_int-space i (tenants_text is r) hi (tenants_text-AtNonDigit is r h),
  read_tenants-tenants_text m is r his h,
)

-- A count above the numbers on the line makes the code read a variable that has no value.
pub read_tenants_short :
    (m : EntryMap) (is : List ℤ) (n : ℕ) {keys : List Key}
    → All IsInt is
    → length is < n
    → find_tenants m is ≡ ok keys
    → read_tenants n m (continue_with (tenants_text is [])) ≡ undefined
unfolding read_tenants continue_with
read_tenants_short m [] zero _ h e = absurd (omega arith)
read_tenants_short m [] (suc n) _ h e = refl
read_tenants_short m (i ∷ is) zero _ h e = absurd (omega arith)
read_tenants_short m (i ∷ is) (suc n) (hi, his) h e =
    let (key, found, e') = >>=-ok (Dict.lookup_at i m) _ e in
    let (keys', found', _) = >>=-ok (find_tenants m is) _ e' in
    rw (
      extract_int-space i (tenants_text is []) hi (tenants_text-AtNonDigit is [] tt),
      found,
      read_tenants_short m is n his (omega arith) found',
    )
