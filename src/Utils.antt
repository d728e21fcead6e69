-- ===== src/Utils.antt =====
-- include/utils.hpp
use feedback_ingest.Base.{
  length, ◌≤◌, ℕ, Bool, true, false, ◌&&◌, List, [], ◌∷◌, ◌++◌, Bytes, All, if◌then◌else◌, ◌≡◌,
  refl, arith, Bool-cases, inl, inr,
}
use feedback_ingest.Stream.{is_space, skip_spaces}

-- `ranges::all_of(str, std::isspace)`
unfoldable pub is_blank : Bytes → Bool
unfolding is_space
is_blank [] = true
is_blank (c ∷ s) = is_space c && is_blank s

unfoldable pub without_blank_lines : List Bytes → List Bytes
unfolding is_blank
without_blank_lines [] = []
without_blank_lines (line ∷ lines) =
    let rest = without_blank_lines lines in if is_blank line then rest else line ∷ rest

-- A line that is not blank has a character for the first extraction from it.
pub skip_spaces_blank :
    (s : Bytes) → is_blank s ≡ false → (c : ℕ) × (r : Bytes) × (skip_spaces s ≡ c ∷ r)
unfolding is_blank skip_spaces
skip_spaces_blank [] h = cc
skip_spaces_blank (c ∷ s) h = elim (Bool-cases (is_space c)) [
  | inl e ↦ rw e (skip_spaces_blank s (ground arith))
  | inr e ↦ (c, s, rw e)
]

-- Blank lines are dropped, every other line is kept, in its order.
pub without_blank_lines-All :
    (lines : List Bytes) → All (λ l. is_blank l ≡ false) (without_blank_lines lines)
unfolding without_blank_lines
without_blank_lines-All [] = tt
without_blank_lines-All (l ∷ ls) = ground (arith, without_blank_lines-All ls)

pub without_blank_lines-append :
    (xs ys : List Bytes)
    → without_blank_lines (xs ++ ys) ≡ without_blank_lines xs ++ without_blank_lines ys
unfolding without_blank_lines
without_blank_lines-append [] ys = refl
without_blank_lines-append (l ∷ ls) ys = ground (arith, without_blank_lines-append ls ys)

pub length-without_blank_lines :
    (lines : List Bytes) → length (without_blank_lines lines) ≤ length lines
unfolding without_blank_lines
length-without_blank_lines [] = omega arith
length-without_blank_lines (l ∷ ls) = ground (arith, length-without_blank_lines ls)

pub without_blank_lines_kept :
    (l : Bytes) (ls : List Bytes)
    → is_blank l ≡ false
    → without_blank_lines (l ∷ ls) ≡ l ∷ without_blank_lines ls
unfolding without_blank_lines
without_blank_lines_kept l ls e = rw e

-- `ignore_arguments`: a call with any arguments is the call without them.
unfoldable pub ignore_arguments {ℓ κ} : {A : Type ℓ} {B : Type κ} → (Unit {0} → B) → A → B
ignore_arguments f arguments = f tt
