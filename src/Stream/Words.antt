-- ===== src/Stream/Words.antt =====
-- `stream >> word` on a text that begins with a word.
use feedback_ingest.Base.{◌≡◌, ◌≢◌, refl, true, false, some, [], ◌∷◌, ◌++◌, Bytes, All}
use mathlib.Core.Path.{subst}
use mathlib.Core.List.{append-nil}
use feedback_ingest.Stream.{
  bad, is_space, skip_spaces, take_word, read_word, continue_with, extract_word,
}

-- A word ends at the end of the text or at a space.
abbrev pub AtBreak : Bytes → Type 0
AtBreak [] = Unit
AtBreak (c ∷ s) = is_space c ≡ true

abbrev pub IsWord : Bytes → Type 0
IsWord w = (w ≢ []) × All (λ c. is_space c ≡ false) w

take_word-append :
    (w r : Bytes) → All (λ c. is_space c ≡ false) w → AtBreak r → take_word (w ++ r) ≡ (w, r)
unfolding take_word
take_word-append [] [] _ _ = refl
take_word-append [] (c ∷ s) _ h = rw h
take_word-append (c ∷ w) r (hc, hw) h = rw (hc, take_word-append w r hw h)

read_word-append :
    (w r : Bytes)
    → IsWord w
    → AtBreak r
    → read_word (skip_spaces (w ++ r)) ≡ (some w, continue_with r)
unfolding read_word skip_spaces
read_word-append [] r (ne, _) h = absurd (ne refl)
read_word-append (c ∷ w) r (ne, (hc, hw)) h = rw hc (rw (take_word-append (c ∷ w) r (hc, hw) h))

-- From a good stream whose text is a word up to a break, the word is read and the rest is left.
pub extract_word-append :
    (w r : Bytes)
    → IsWord w
    → AtBreak r
    → extract_word (record { rest = w ++ r; good = true }) ≡ (some w, continue_with r)
unfolding extract_word
extract_word-append w r h b = read_word-append w r h b

-- So it is behind a space.
pub extract_word-space :
    (w r : Bytes)
    → IsWord w
    → AtBreak r
    → extract_word (record { rest = b' ' ∷ (w ++ r); good = true }) ≡ (some w, continue_with r)
unfolding extract_word
extract_word-space w r h b = read_word-append w r h b

-- So it is at the end of the text.
pub extract_word_last :
    (w : Bytes) → IsWord w → extract_word (record { rest = b' ' ∷ w; good = true }) ≡ (some w, bad)
extract_word_last w h =
    subst (λ (t : Bytes). extract_word (record { rest = b' ' ∷ t; good = true }) ≡ (some w, bad))
      (append-nil w) (unfold continue_with in extract_word-space w [] h tt)
