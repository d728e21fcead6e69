-- ===== src/Stream/Shown.antt =====
-- Texts of the loader files that hold no newline and are not blank.
use feedback_ingest.Base.{
  ℕ, suc, ◌≡◌, ◌≢◌, refl, false, arith, [], ◌∷◌, ◌++◌, Bytes, All, All-append, nat_eq,
}
use feedback_ingest.Base.Int.{ℤ, pos, negsuc}
use feedback_ingest.Base.Decimal.{to_string}
use feedback_ingest.Base.Decimal.Value.{IsDigit, digits-IsDigit, digits-ne-nil}
use feedback_ingest.Stream.{is_space}
use feedback_ingest.Stream.Words.{IsWord}
use feedback_ingest.FileOps.Lines.{IsLine}
use feedback_ingest.Utils.{is_blank}

-- A line that is read as it was written and is not dropped.
abbrev pub IsKept : Bytes → Type 0
IsKept line = IsLine line × (is_blank line ≡ false)

no_space_no_newline : (c : ℕ) → is_space c ≡ false → c ≢ b'\n'
unfolding is_space
no_space_no_newline c h = ground arith

no_spaces-IsLine : (s : Bytes) → All (λ c. is_space c ≡ false) s → IsLine s
no_spaces-IsLine [] _ = tt
no_spaces-IsLine (c ∷ s) (h, hs) = (no_space_no_newline c h, no_spaces-IsLine s hs)

pub IsWord-IsLine : (w : Bytes) → IsWord w → IsLine w
IsWord-IsLine w h = no_spaces-IsLine w h.1

digit-not_space : (c : ℕ) → IsDigit c → is_space c ≡ false
unfolding is_space
digit-not_space c h = ground arith

digits-no_spaces : (s : Bytes) → All IsDigit s → All (λ c. is_space c ≡ false) s
digits-no_spaces [] _ = tt
digits-no_spaces (c ∷ s) (h, hs) = (digit-not_space c h, digits-no_spaces s hs)

-- A number is a word.
pub to_string-IsWord : (i : ℤ) → IsWord (to_string i)
unfolding to_string
to_string-IsWord (pos n) =
    (digits-ne-nil (suc n) n (omega arith), digits-no_spaces _ (digits-IsDigit (suc n) n))
to_string-IsWord (negsuc n) =
    (λ e. cc, (unfold is_space in refl, digits-no_spaces _ (digits-IsDigit (suc (suc n)) (suc n))))

word-not_blank : (w r : Bytes) → IsWord w → is_blank (w ++ r) ≡ false
unfolding is_blank
word-not_blank [] r (ne, _) = absurd (ne refl)
word-not_blank (c ∷ w) r (ne, (h, hs)) = rw h refl

-- A line that begins with a word is kept.
pub word-IsKept : (w r : Bytes) → IsWord w → IsLine r → IsKept (w ++ r)
word-IsKept w r h hr =
    (All-append (λ c. c ≢ b'\n') w r (IsWord-IsLine w h) hr, word-not_blank w r h)

-- A space and a word, and what follows them.
pub space_word-IsLine : (w r : Bytes) → IsWord w → IsLine r → IsLine (b' ' ∷ (w ++ r))
space_word-IsLine w r h hr = (λ e. cc, All-append (λ c. c ≢ b'\n') w r (IsWord-IsLine w h) hr)
