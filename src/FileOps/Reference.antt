-- ===== src/FileOps/Reference.antt =====
-- `sync_read_file_lines` of include/file_ops.hpp against a reading of the text character by
-- character.
use feedback_ingest.Base.{
  ℕ, zero, suc, ◌<◌, ◌≡◌, refl, ap, sym, ◌∙◌, inl, inr, arith, some, List, [], ◌∷◌, Bytes, length,
  ◌==◌, nat_eq, if◌then◌else◌, Bool-cases,
}
use feedback_ingest.FileOps.{take_line, getline, read_lines, file_lines}
use feedback_ingest.FileOps.Lines.{length-take_line_cons}

-- A character in front of the first line.
abbrev pub begin_with : ℕ → List Bytes → List Bytes
begin_with c [] = (c ∷ []) ∷ []
begin_with c (line ∷ lines) = (c ∷ line) ∷ lines

-- The lines of a text: each newline ends one, and the last one may lack it.
unfoldable pub lines_of : Bytes → List Bytes
lines_of [] = []
lines_of (c ∷ s) = let rest = lines_of s in if c == b'\n' then [] ∷ rest else begin_with c rest

lines_of-take_line :
    (c : ℕ) (s : Bytes) → lines_of (c ∷ s) ≡ (take_line (c ∷ s)).0 ∷ lines_of (take_line (c ∷ s)).1
unfolding lines_of take_line
lines_of-take_line c [] = elim (Bool-cases (c == b'\n')) [ inl e ↦ rw e refl | inr e ↦ rw e refl ]
lines_of-take_line c (d ∷ s) = elim (Bool-cases (c == b'\n')) [
  | inl e ↦ rw e refl
  | inr e ↦ rw e (ap (begin_with c) (lines_of-take_line d s))
]

read_lines-lines_of : (fuel : ℕ) (s : Bytes) → length s < fuel → read_lines fuel s ≡ lines_of s
unfolding read_lines getline
read_lines-lines_of zero s h = absurd (omega arith)
read_lines-lines_of (suc fuel) [] h = unfold lines_of in refl
read_lines-lines_of (suc fuel) (c ∷ s) h =
    ap (λ (ls : List Bytes). (take_line (c ∷ s)).0 ∷ ls)
      (read_lines-lines_of fuel (take_line (c ∷ s)).1 (omega (arith, length-take_line_cons c s)))
    ∙ sym (lines_of-take_line c s)

-- The loop of `getline` reads exactly the lines of the text, and its fuel is enough.
pub file_lines-lines_of : (content : Bytes) → file_lines (some content) ≡ lines_of content
unfolding file_lines
file_lines-lines_of content = read_lines-lines_of (suc (length content)) content (omega arith)
