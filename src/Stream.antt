-- ===== src/Stream.antt =====
-- `std::stringstream` as a source: the extractions `stream >> word` and `stream >> number` that
-- the loaders use, in the "C" locale. A stream is good until an extraction fails or meets the end;
-- from then on each further one fails and leaves its variable as it is.
pub mod Words
pub mod Ints
pub mod Shown
pub mod Printed
use feedback_ingest.Base.{ℕ, zero, suc, ◌+◌, ◌-◌, ◌*◌, ◌^◌, Bool, true, false, not, ◌&&◌, ◌||◌}
use feedback_ingest.Base.{
  Option, none, some, List, [], ◌∷◌, Bytes, ltb, leb, ◌==◌, nat_eq, if◌then◌else◌,
}
use feedback_ingest.Base.Int.{ℤ, pos, negsuc, int_max}

-- `std::isspace`
unfoldable pub is_space : ℕ → Bool
is_space c = leb c 32 && (leb 32 c || (leb 9 c && leb c 13))

unfoldable pub is_digit : ℕ → Bool
is_digit c = leb b'0' c && leb c b'9'

-- The characters not yet read, and `stream.good()`.
pub record Stream : Type 0 where
  pub rest : Bytes
  pub good : Bool

abbrev pub open_stream : Bytes → Stream
open_stream s = record { rest = s; good = true }

abbrev pub bad : Stream
bad = record { rest = []; good = false }

-- What the sentry of an extraction skips.
unfoldable pub skip_spaces : Bytes → Bytes
unfolding is_space
skip_spaces [] = []
skip_spaces (c ∷ s) = if is_space c then skip_spaces s else c ∷ s

-- The characters up to the next space, and the rest.
unfoldable pub take_word : Bytes → Bytes × Bytes
unfolding is_space
take_word [] = ([], [])
take_word (c ∷ s) = let (w, r) = take_word s in if is_space c then ([], c ∷ s) else (c ∷ w, r)

-- The end of the input, once met, ends the stream.
unfoldable pub continue_with : Bytes → Stream
continue_with [] = bad
continue_with (c ∷ s) = record { rest = c ∷ s; good = true }

-- `none`: the variable is left as it was.
read_word : Bytes → Option Bytes × Stream
unfolding take_word continue_with
read_word [] = (none, bad)
read_word (c ∷ s) = let (w, r) = take_word (c ∷ s) in (some w, continue_with r)

unfoldable pub extract_word : Stream → Option Bytes × Stream
unfolding skip_spaces read_word
extract_word s = if s.good then read_word (skip_spaces s.rest) else (none, bad)

-- The value of the leading digits behind `n`, whether there was a digit, and the rest.
unfoldable pub take_digits : ℕ → Bool → Bytes → ℕ × Bool × Bytes
unfolding is_digit
take_digits n any [] = (n, any, [])
take_digits n any (c ∷ s) = elim (is_digit c) [
  | true ↦ take_digits (n * 10 + (c - b'0')) true s
  | false ↦ (n, any, c ∷ s)
]

-- The number with its sign. One that is no `int` is replaced by the nearest, and is a failure.
unfoldable pub to_int : Bool → ℕ → ℤ × Bool
to_int true zero = (pos 0, true)
to_int true (suc n) = if leb n int_max then (negsuc n, true) else (negsuc int_max, false)
to_int false n = if leb n int_max then (pos n, true) else (pos int_max, false)

-- `num_get`: without a digit the variable becomes 0, and that is a failure.
unfoldable pub finish_int : Bool → ℕ × Bool × Bytes → Option ℤ × Stream
unfolding to_int continue_with
finish_int negative (n, false, r) = (some (pos 0), bad)
finish_int negative (n, true, r) =
    let (i, fits) = to_int negative n in (some i, if fits then continue_with r else bad)

unfoldable pub read_int : Bytes → Option ℤ × Stream
unfolding take_digits finish_int
read_int [] = (none, bad)
read_int (c ∷ s) =
    if c == b'-'
    then finish_int true (take_digits 0 false s)
    else if c == b'+'
    then finish_int false (take_digits 0 false s)
    else finish_int false (take_digits 0 false (c ∷ s))

unfoldable pub extract_int : Stream → Option ℤ × Stream
unfolding skip_spaces read_int
extract_int s = if s.good then read_int (skip_spaces s.rest) else (none, bad)
