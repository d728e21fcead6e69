-- ===== src/FileOps/Lines.antt =====
-- The lines of a file and its text.
use feedback_ingest.Base.{
  ℕ, zero, suc, ◌<◌, ◌≤◌, ◌≡◌, ◌≢◌, refl, ◌⊎◌, inl, inr, arith, ap, sym, ◌∙◌,
}
use feedback_ingest.Base.{some, List, [], ◌∷◌, ◌++◌, Bytes, All, length, length-append, nat_eq}
use mathlib.Core.List.{append_assoc}
use feedback_ingest.FileOps.{take_line, getline, read_lines, file_lines}

abbrev pub IsLine : Bytes → Type 0
IsLine = All (λ c. c ≢ b'\n')

-- The text with each line closed by a newline.
abbrev pub unlines : List Bytes → Bytes
unlines [] = []
unlines (l ∷ ls) = l ++ (b'\n' ∷ unlines ls)

take_line-IsLine : (s : Bytes) → IsLine (take_line s).0
unfolding take_line
take_line-IsLine [] = tt
take_line-IsLine (c ∷ s) = ground (arith, take_line-IsLine s)

-- Either the line was closed by a newline or it is all that is left.
take_line-cases :
    (s : Bytes)
    → ((take_line s).0 ++ (b'\n' ∷ (take_line s).1) ≡ s)
      ⊎ (((take_line s).0 ≡ s) × ((take_line s).1 ≡ []))
unfolding take_line
take_line-cases [] = inr (refl, refl)
take_line-cases (c ∷ s) = ground (arith, take_line-cases s)

length-take_line : (s : Bytes) → length (take_line s).1 ≤ length s
unfolding take_line
length-take_line [] = omega arith
length-take_line (c ∷ s) = ground (arith, length-take_line s)

pub length-take_line_cons : (c : ℕ) (s : Bytes) → length (take_line (c ∷ s)).1 ≤ length s
unfolding take_line
length-take_line_cons c s = ground (arith, length-take_line s)

read_lines-IsLine : (fuel : ℕ) (s : Bytes) → All IsLine (read_lines fuel s)
unfolding read_lines
read_lines-IsLine zero s = tt
read_lines-IsLine (suc fuel) [] = tt
read_lines-IsLine (suc fuel) (c ∷ s) =
    (take_line-IsLine (c ∷ s), read_lines-IsLine fuel (take_line (c ∷ s)).1)

read_lines-nil : (fuel : ℕ) → read_lines fuel [] ≡ []
unfolding read_lines
read_lines-nil zero = refl
read_lines-nil (suc fuel) = refl

-- The content, or the content and the newline that it lacks.
abbrev Glues : Bytes → Bytes → Type 0
Glues text content = (text ≡ content) ⊎ (text ≡ content ++ (b'\n' ∷ []))

glue_line :
    (l r text content : Bytes)
    → Glues text r
    → l ++ (b'\n' ∷ r) ≡ content
    → Glues (l ++ (b'\n' ∷ text)) content
glue_line l r text content (inl e) whole = inl (ap (λ (t : Bytes). l ++ (b'\n' ∷ t)) e ∙ whole)
glue_line l r text content (inr e) whole = inr (
    ap (λ (t : Bytes). l ++ (b'\n' ∷ t)) e
    ∙ sym (append_assoc l (b'\n' ∷ r) (b'\n' ∷ []))
    ∙ ap (λ (t : Bytes). t ++ (b'\n' ∷ [])) whole)

read_lines-glue : (fuel : ℕ) (s : Bytes) → length s < fuel → Glues (unlines (read_lines fuel s)) s
unfolding read_lines
read_lines-glue zero s h = absurd (omega arith)
read_lines-glue (suc fuel) [] h = inl refl
read_lines-glue (suc fuel) (c ∷ s) h =
    let (l, r) = take_line (c ∷ s) in
    elim (take_line-cases (c ∷ s)) [
      | inl whole ↦
          glue_line l r (unlines (read_lines fuel r)) (c ∷ s)
            (read_lines-glue fuel r (omega (arith, length-take_line_cons c s))) whole
      | inr (e, last) ↦ inr (rw (last, read_lines-nil) (ap (λ (t : Bytes). t ++ (b'\n' ∷ [])) e))
    ]

-- The lines that are read hold no newline, and are the whole content: each closed by a newline,
-- they give it back, but for a newline that the content may lack at its end.
pub file_lines_lem :
    (content : Bytes)
    → All IsLine (file_lines (some content))
      × ((unlines (file_lines (some content)) ≡ content)
          ⊎ (unlines (file_lines (some content)) ≡ content ++ (b'\n' ∷ [])))
unfolding file_lines
file_lines_lem content = (
  read_lines-IsLine (suc (length content)) content,
  read_lines-glue (suc (length content)) content (omega arith),
)

take_line-append : (l s : Bytes) → IsLine l → take_line (l ++ (b'\n' ∷ s)) ≡ (l, s)
unfolding take_line nat_eq
take_line-append [] s _ = refl
take_line-append (c ∷ l) s (hc, hl) = rw (take_line-append l s hl) (ground arith)

getline-append : (l s : Bytes) → IsLine l → getline (l ++ (b'\n' ∷ s)) ≡ some (l, s)
unfolding getline
getline-append [] s h = rw (take_line-append [] s h)
getline-append (c ∷ l) s h = rw (take_line-append (c ∷ l) s h)

read_lines_line :
    (fuel : ℕ) (l s : Bytes)
    → IsLine l
    → read_lines (suc fuel) (l ++ (b'\n' ∷ s)) ≡ l ∷ read_lines fuel s
unfolding read_lines
read_lines_line fuel l s h = rw (getline-append l s h, read_lines)

read_lines-unlines :
    (fuel : ℕ) (ls : List Bytes)
    → All IsLine ls
    → length (unlines ls) < fuel
    → read_lines fuel (unlines ls) ≡ ls
read_lines-unlines zero ls _ h = absurd (omega arith)
read_lines-unlines (suc fuel) [] _ h = read_lines-nil (suc fuel)
read_lines-unlines (suc fuel) (l ∷ ls) (hl, hls) h =
    read_lines_line fuel l (unlines ls) hl
    ∙ ap (λ (t : List Bytes). l ∷ t)
        (read_lines-unlines fuel ls hls (omega (arith, length-append l (b'\n' ∷ unlines ls))))

-- A file of lines, each closed by a newline, is read as those lines, empty ones included.
pub file_lines-unlines : (ls : List Bytes) → All IsLine ls → file_lines (some (unlines ls)) ≡ ls
unfolding file_lines
file_lines-unlines ls h = read_lines-unlines (suc (length (unlines ls))) ls h (omega arith)
