-- ===== src/Tests/Texts.antt =====
-- Runs of the readers of texts: include/file_ops.hpp, include/tenant and the loader files.
use feedback_ingest.Base.{
  ◌≡◌, refl, ◌⊎◌, arith, true, some, List, [], ◌∷◌, ◌++◌, Bytes, codes, All, nat_eq,
}
use feedback_ingest.Base.Int.{ℤ, pos, negsuc, int_eq}
use feedback_ingest.Base.Decimal.{to_string}
use feedback_ingest.Stream.{continue_with, extract_int, is_space, is_digit}
use feedback_ingest.Stream.Words.{IsWord}
use feedback_ingest.Stream.Ints.{IsInt, extract_int-to_string}
use feedback_ingest.FileOps.{file_lines}
use feedback_ingest.FileOps.Lines.{IsLine, unlines, file_lines_lem}
use feedback_ingest.FileOps.Reference.{lines_of, file_lines-lines_of}
use feedback_ingest.Tenant.{EntryMap}
use feedback_ingest.Discourse.Urls.{make_url_for_post_ids-injective}

abbrev name : Bytes
name = codes "ab"

name-IsWord : IsWord name
unfolding is_space nat_eq
name-IsWord = ((λ e. cc), ((refl, (refl, tt))))

abbrev two : List ℤ
two = pos 7 ∷ pos 2 ∷ []

two-IsInt : All IsInt two
two-IsInt = (omega arith, (omega arith, tt))

abbrev keys : EntryMap
keys = (pos 7, pos 0) ∷ (pos 2, pos 1) ∷ []

extract_int-to_string_example :
    extract_int (record { rest = to_string (negsuc 41) ++ codes " 3"; good = true })
    ≡ (some (negsuc 41), continue_with (codes " 3"))
extract_int-to_string_example =
    extract_int-to_string (negsuc 41) (codes " 3") (omega arith) (unfold is_digit in refl)

file_lines_lem_example :
    All IsLine (file_lines (some (codes "ab\n\nc")))
    × ((unlines (file_lines (some (codes "ab\n\nc"))) ≡ codes "ab\n\nc")
        ⊎ (unlines (file_lines (some (codes "ab\n\nc"))) ≡ codes "ab\n\nc" ++ (b'\n' ∷ [])))
file_lines_lem_example = file_lines_lem (codes "ab\n\nc")

file_lines-lines_of_example : file_lines (some (codes "ab\n\nc")) ≡ lines_of (codes "ab\n\nc")
file_lines-lines_of_example = file_lines-lines_of (codes "ab\n\nc")

make_url_for_post_ids-injective_example : (pos 7 ≡ pos 7) × (two ≡ two)
make_url_for_post_ids-injective_example =
    make_url_for_post_ids-injective (pos 7) (pos 7) two two (omega arith) (omega arith) two-IsInt
      two-IsInt refl
