-- ===== src/Filepp/Load.antt =====
-- include/data_source/filepp/load_filepp_file.hpp: the lines of loader_files/filepp.txt.
pub mod Lines
use feedback_ingest.Base.{List, Bytes, Outcome, ok, ◌>>=◌}
use feedback_ingest.Stream.{open_stream, extract_word, extract_int}
use feedback_ingest.Tenant.{EntryMap, or_empty}
use feedback_ingest.DataSource.{
  InfoHeader, DataLoadEntry, initialised, rounds, read_tenants, with_lines,
}
use feedback_ingest.Filepp.{FileppInfo}

unfoldable pub get_loader_entry : EntryMap → Bytes → Outcome (DataLoadEntry FileppInfo)
unfolding extract_word extract_int read_tenants
get_loader_entry entry_map entry = do
  let (name, s₁) = extract_word (open_stream entry)
  let s₂ = (extract_word s₁).1
  n ← initialised (extract_int s₂).0
  tenants ← read_tenants (rounds n) entry_map (extract_int s₂).1
  ok (record {
    source_info_with_header = record {
      name = or_empty name;
      source_info = record { file_path = or_empty (extract_word s₁).0 };
    };
    subscribing_tenants = tenants;
  })

unfoldable pub make_loader_entries :
    EntryMap → List Bytes → Outcome (List (DataLoadEntry FileppInfo))
unfolding with_lines get_loader_entry
make_loader_entries = with_lines get_loader_entry
