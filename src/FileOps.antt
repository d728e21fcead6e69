-- ===== src/FileOps.antt =====
-- include/file_ops.hpp: the reading of files.
pub mod Lines
pub mod Shown
pub mod Reference
use feedback_ingest.Base.{ℕ, zero, suc, ◌+◌, Bool, true, false}
use feedback_ingest.Base.{
  Option, none, some, List, [], ◌∷◌, Bytes, length, ◌==◌, nat_eq, if◌then◌else◌,
}

-- The operating system's files. A path that cannot be opened reads as `none`.
pub record FileSystem : Type 1 where
  pub State : Type 0
  pub read : State → Bytes → Option Bytes

-- The characters up to the next newline, which is dropped, and the rest.
unfoldable pub take_line : Bytes → Bytes × Bytes
take_line [] = ([], [])
take_line (c ∷ s) = let (l, r) = take_line s in if c == b'\n' then ([], s) else (c ∷ l, r)

-- `std::getline`, which fails at the end of the file.
unfoldable pub getline : Bytes → Option (Bytes × Bytes)
unfolding take_line
getline [] = none
getline (c ∷ s) = some (take_line (c ∷ s))

-- `while (std::getline(in, line)) res.push_back(line)`. Each round takes a character at least.
unfoldable pub read_lines : ℕ → Bytes → List Bytes
unfolding getline
read_lines zero s = []
read_lines (suc fuel) s = elim (getline s) [
  | none ↦ []
  | some (line, rest) ↦ line ∷ read_lines fuel rest
]

-- `sync_read_file_lines`, and the body of the coroutine `read_file_lines`.
unfoldable pub file_lines : Option Bytes → List Bytes
unfolding read_lines
file_lines none = []
file_lines (some content) = read_lines (suc (length content)) content

-- `read_file`: a stream that is not open gives no characters.
abbrev pub content_of : Option Bytes → Bytes
content_of none = []
content_of (some content) = content

module _ (F : FileSystem) where
  unfoldable pub sync_read_file_lines : F.State → Bytes → List Bytes
  unfolding file_lines
  sync_read_file_lines files path = file_lines (F.read files path)
