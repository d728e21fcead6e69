-- ===== src/Stream/Ints.antt =====
-- `stream >> number` reads back what `std::to_string` writes.
use feedback_ingest.Base.{ℕ, suc, ◌+◌, ◌-◌, ◌*◌, ◌≤◌, ◌≡◌, ◌≢◌, refl, ◌∙◌, Bool, true, false, arith}
use feedback_ingest.Base.{Bool-cases, inl, inr}
use feedback_ingest.Base.{some, [], ◌∷◌, ◌++◌, Bytes, All, ◌==◌, nat_eq}
use feedback_ingest.Base.Int.{ℤ, pos, negsuc, int_max}
use feedback_ingest.Base.Decimal.{digits, to_string}
use feedback_ingest.Base.Decimal.Value.{IsDigit, value, digits-IsDigit, value-digits, digits-ne-nil}
use feedback_ingest.Stream.{
  is_space, is_digit, skip_spaces, take_digits, to_int, finish_int, read_int, continue_with,
  extract_int,
}

-- The values of `int`.
abbrev pub IsInt : ℤ → Type 0
IsInt (pos n) = n ≤ int_max
IsInt (negsuc n) = n ≤ int_max

-- A number ends at the end of the text or at a character that is no digit.
abbrev pub AtNonDigit : Bytes → Type 0
AtNonDigit [] = Unit
AtNonDigit (c ∷ s) = is_digit c ≡ false

is_digit-true : (c : ℕ) → IsDigit c → is_digit c ≡ true
unfolding is_digit
is_digit-true c h = ground arith

take_digits_end :
    (n : ℕ) (any : Bool) (r : Bytes) → AtNonDigit r → take_digits n any r ≡ (n, any, r)
unfolding take_digits
take_digits_end n any [] h = refl
take_digits_end n any (c ∷ s) h = rw (h, take_digits)

take_digits_step :
    (n : ℕ) (any : Bool) (c : ℕ) (s : Bytes)
    → IsDigit c
    → take_digits n any (c ∷ s) ≡ take_digits (n * 10 + (c - b'0')) true s
unfolding take_digits
take_digits_step n any c s h = rw (is_digit-true c h, take_digits)

take_digits-append :
    (n : ℕ) (ds r : Bytes)
    → All IsDigit ds
    → AtNonDigit r
    → take_digits n true (ds ++ r) ≡ (value n ds, true, r)
take_digits-append n [] r _ h = take_digits_end n true r h
take_digits-append n (d ∷ ds) r (hd, hds) h =
    take_digits_step n true d (ds ++ r) hd ∙ take_digits-append (n * 10 + (d - b'0')) ds r hds h

take_digits-digits :
    (ds r : Bytes)
    → ds ≢ []
    → All IsDigit ds
    → AtNonDigit r
    → take_digits 0 false (ds ++ r) ≡ (value 0 ds, true, r)
take_digits-digits [] r ne _ h = absurd (ne refl)
take_digits-digits (d ∷ ds) r ne (hd, hds) h =
    take_digits_step 0 false d (ds ++ r) hd ∙ take_digits-append (0 * 10 + (d - b'0')) ds r hds h

to_int_pos : (n : ℕ) → n ≤ int_max → to_int false n ≡ (pos n, true)
unfolding to_int
to_int_pos n h = ground arith

to_int_negsuc : (n : ℕ) → n ≤ int_max → to_int true (suc n) ≡ (negsuc n, true)
unfolding to_int
to_int_negsuc n h = ground arith

is_space_digit : (c : ℕ) → IsDigit c → is_space c ≡ false
unfolding is_space
is_space_digit c h = ground arith

read_int_digit :
    (d : ℕ) (s : Bytes)
    → IsDigit d
    → read_int (d ∷ s) ≡ finish_int false (take_digits 0 false (d ∷ s))
unfolding read_int
read_int_digit d s h = ground arith

read_int_digits :
    (ds r : Bytes)
    → ds ≢ []
    → All IsDigit ds
    → read_int (skip_spaces (ds ++ r)) ≡ finish_int false (take_digits 0 false (ds ++ r))
unfolding skip_spaces
read_int_digits [] r ne _ = absurd (ne refl)
read_int_digits (d ∷ ds) r ne (hd, hds) = rw (is_space_digit d hd) (read_int_digit d (ds ++ r) hd)

-- From a good stream whose text is a printed `int` up to a character that is no digit, the number
-- is read and the rest is left.
pub extract_int-to_string :
    (i : ℤ) (r : Bytes)
    → IsInt i
    → AtNonDigit r
    → extract_int (record { rest = to_string i ++ r; good = true }) ≡ (some i, continue_with r)
unfolding extract_int to_string nat_eq
extract_int-to_string (pos n) r fits h =
    let ds = digits (suc n) n in
    let all_digits = digits-IsDigit (suc n) n in
    let some_digit = digits-ne-nil (suc n) n (omega arith) in
    rw (
      read_int_digits ds r some_digit all_digits,
      take_digits-digits ds r some_digit all_digits h,
      value-digits (suc n) n (omega arith),
      to_int_pos n fits,
    )
extract_int-to_string (negsuc n) r fits h =
    let ds = digits (suc (suc n)) (suc n) in
    let all_digits = digits-IsDigit (suc (suc n)) (suc n) in
    let some_digit = digits-ne-nil (suc (suc n)) (suc n) (omega arith) in
    rw (
      take_digits-digits ds r some_digit all_digits h,
      value-digits (suc (suc n)) (suc n) (omega arith),
      to_int_negsuc n fits,
    )

finish_int-some :
    (negative : Bool) (t : ℕ × Bool × Bytes) → (i : ℤ) × ((finish_int negative t).0 ≡ some i)
unfolding finish_int
finish_int-some negative (n, false, r) = (pos 0, refl)
finish_int-some negative (n, true, r) = ((to_int negative n).0, refl)

-- On any text that is not at its end, a number is assigned.
pub read_int-some : (c : ℕ) (s : Bytes) → (i : ℤ) × ((read_int (c ∷ s)).0 ≡ some i)
unfolding read_int
read_int-some c s = elim (Bool-cases (c == b'-')) [
  | inl e ↦ rw e (finish_int-some true (take_digits 0 false s))
  | inr e ↦ elim (Bool-cases (c == b'+')) [
    | inl e' ↦ rw (e, e') (finish_int-some false (take_digits 0 false s))
    | inr e' ↦ rw (e, e') (finish_int-some false (take_digits 0 false (c ∷ s)))
  ]
]

-- So it is behind a space.
pub extract_int-space :
    (i : ℤ) (r : Bytes)
    → IsInt i
    → AtNonDigit r
    → extract_int (record { rest = b' ' ∷ (to_string i ++ r); good = true })
      ≡ (some i, continue_with r)
unfolding extract_int
extract_int-space i r fits h = extract_int-to_string i r fits h
