-- ===== src/Notifyu/Load.antt =====
-- include/data_source/notifyu/load_notifyu_file.hpp: the lines of loader_files/notifyu.txt.
pub mod Lines
use feedback_ingest.Base.{List, [], ◌∷◌, Bytes, Outcome, ok, ◌>>=◌}
use feedback_ingest.Base.Int.{int_eq}
use feedback_ingest.Base.Dict
use feedback_ingest.Stream.{open_stream, extract_word, extract_int}
use feedback_ingest.Tenant.{EntryMap, or_empty}
use feedback_ingest.DataSource.{InfoHeader, DataLoadEntry, initialised, with_lines}
use feedback_ingest.Notifyu.{NotifyuInfo}

unfoldable pub get_loader_entry : EntryMap → Bytes → Outcome (DataLoadEntry NotifyuInfo)
unfolding extract_word extract_int Dict.lookup_at
get_loader_entry entry_map entry = do
  let (name, s₁) = extract_word (open_stream entry)
  let (route, s₂) = extract_word s₁
  tenant ← initialised (extract_int s₂).0
  key ← Dict.lookup_at tenant entry_map
  ok (record {
    source_info_with_header = record {
      name = or_empty name;
      source_info = record { listening_route = or_empty route };
    };
    subscribing_tenants = key ∷ [];
  })

unfoldable pub make_loader_entries :
    EntryMap → List Bytes → Outcome (List (DataLoadEntry NotifyuInfo))
unfolding with_lines get_loader_entry
make_loader_entries = with_lines get_loader_entry
