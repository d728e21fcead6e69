-- ===== src/FileOps/Shown.antt =====
-- Files that show a list of values, each on a line of its own (`sync_read_file_lines` of
-- include/file_ops.hpp, and `without_blank_lines` of include/utils.hpp).
use feedback_ingest.Base.{◌≡◌, refl, ap, ◌∙◌, some, List, [], ◌∷◌, map, Bytes, All}
use feedback_ingest.FileOps.{FileSystem, file_lines, sync_read_file_lines}
use feedback_ingest.FileOps.Lines.{IsLine, unlines, file_lines-unlines}
use feedback_ingest.Stream.Shown.{IsKept}
use feedback_ingest.Utils.{without_blank_lines, without_blank_lines_kept}

module _ {A : Type 0} (line : A → Bytes) (IsFine : A → Type 0)
    (kept : (x : A) → IsFine x → IsKept (line x)) where
  lines-IsLine : (xs : List A) → All IsFine xs → All IsLine (map line xs)
  lines-IsLine [] _ = tt
  lines-IsLine (x ∷ xs) (h, hs) = ((kept x h).0, lines-IsLine xs hs)

  pub shown_lines-kept :
      (xs : List A) → All IsFine xs → without_blank_lines (map line xs) ≡ map line xs
  unfolding without_blank_lines
  shown_lines-kept [] _ = refl
  shown_lines-kept (x ∷ xs) (h, hs) =
      without_blank_lines_kept (line x) (map line xs) (kept x h).1
      ∙ ap (λ (t : List Bytes). line x ∷ t) (shown_lines-kept xs hs)

  pub sync_read_file_lines_shown :
      (F : FileSystem) (files : F.State) (path : Bytes) (xs : List A)
      → All IsFine xs
      → F.read files path ≡ some (unlines (map line xs))
      → sync_read_file_lines F files path ≡ map line xs
  unfolding sync_read_file_lines
  sync_read_file_lines_shown F files path xs h e =
      ap file_lines e ∙ file_lines-unlines (map line xs) (lines-IsLine xs h)
