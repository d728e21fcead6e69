-- ===== src/Filepp/Load/Lines.antt =====
-- The lines of loader_files/filepp.txt, as the README describes them:
-- `<source name> <file path> <number of subscribing tenants> <tenants>....`
use feedback_ingest.Base.{ℕ, ◌<◌, ◌≤◌, ◌≡◌, refl, List, [], ◌∷◌, ◌++◌, Bytes, All, length}
use feedback_ingest.Base.{ok, undefined, ◌>>=◌}
use feedback_ingest.Base.Int.{ℤ, pos, int_max}
use feedback_ingest.Base.Decimal.{to_string}
use feedback_ingest.Registry.{Key}
use feedback_ingest.Stream.{is_space, continue_with}
use feedback_ingest.Stream.Words.{IsWord, extract_word-append, extract_word-space}
use feedback_ingest.Stream.Ints.{IsInt, extract_int-space}
use feedback_ingest.Tenant.{EntryMap}
use feedback_ingest.DataSource.{InfoHeader, read_tenants}
use feedback_ingest.DataSource.Tenants.{
  tenants_text, find_tenants, tenants_text-AtNonDigit, read_tenants-tenants_text,
  read_tenants_short,
}
use feedback_ingest.Filepp.{FileppInfo}
use feedback_ingest.Filepp.Load.{get_loader_entry}

-- A line with a count that need not be that of the numbers behind it.
abbrev pub filepp_line : InfoHeader FileppInfo → ℕ → List ℤ → Bytes
filepp_line h n is =
    h.name
    ++ (b' ' ∷ (h.source_info.file_path ++ (b' ' ∷ (to_string (pos n) ++ tenants_text is []))))

module _ (m : EntryMap) (h : InfoHeader FileppInfo) (n : ℕ) (is : List ℤ) (name : IsWord h.name)
    (path : IsWord h.source_info.file_path) (count : n ≤ int_max) where
  -- What is left to do once the name, the path and the count are read.
  get_loader_entry_head : get_loader_entry m (filepp_line h n is) ≡ (
      read_tenants n m (continue_with (tenants_text is [])) >>= λ keys.
      ok (record { source_info_with_header = h; subscribing_tenants = keys }))
  unfolding get_loader_entry continue_with
  get_loader_entry_head = rw (
    extract_word-append h.name
        (b' ' ∷ (h.source_info.file_path ++ (b' ' ∷ (to_string (pos n) ++ tenants_text is []))))
        name (unfold is_space in refl),
    extract_word-space h.source_info.file_path (b' ' ∷ (to_string (pos n) ++ tenants_text is []))
        path (unfold is_space in refl),
    extract_int-space (pos n) (tenants_text is []) count (tenants_text-AtNonDigit is [] tt),
  )

-- A line with a name, a path and the count of the tenants behind it gives the entry that it shows,
-- each tenant under its key in the map, or the exception of the first tenant that the map lacks.
pub get_loader_entry-filepp_line :
    (m : EntryMap) (h : InfoHeader FileppInfo) (is : List ℤ)
    → IsWord h.name
    → IsWord h.source_info.file_path
    → length is ≤ int_max
    → All IsInt is
    → get_loader_entry m (filepp_line h (length is) is) ≡ (
        find_tenants m is >>= λ keys.
        ok (record { source_info_with_header = h; subscribing_tenants = keys }))
get_loader_entry-filepp_line m h is name path count ints = rw (
  get_loader_entry_head m h (length is) is name path count,
  read_tenants-tenants_text m is [] ints tt,
)

-- A line whose count is above the number of the tenants behind it, all of them known, has undefined
-- behaviour.
pub get_loader_entry_filepp_short :
    (m : EntryMap) (h : InfoHeader FileppInfo) (n : ℕ) (is : List ℤ) {keys : List Key}
    → IsWord h.name
    → IsWord h.source_info.file_path
    → n ≤ int_max
    → All IsInt is
    → length is < n
    → find_tenants m is ≡ ok keys
    → get_loader_entry m (filepp_line h n is) ≡ undefined
get_loader_entry_filepp_short m h n is name path count ints short found =
    rw (get_loader_entry_head m h n is name path count, read_tenants_short m is n ints short found)
