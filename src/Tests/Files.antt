-- ===== src/Tests/Files.antt =====
-- A run of include/data_source/filepp from its file to the file that is written.
use feedback_ingest.Base.{bytes_eq, nat_eq, true, some, List, [], ◌∷◌, refl, codes}
use feedback_ingest.Base.Int.{pos}
use feedback_ingest.Json.Tree.{string, tree_library-IsLawful}
use feedback_ingest.Effects.{
  Event, returned, now, read_file, create_directories, open_output, write_output,
}
use feedback_ingest.Effects.Runs.{Run, returns, ◌▸◌}
use feedback_ingest.Sink.{
  schema_base_path, json_sink, write, print_to, write_file, make_directories, create_dir_name,
  create_json_file_name,
}
use feedback_ingest.Sink.Files.{Written}
use feedback_ingest.Serializer.{serialize_to_json}
use feedback_ingest.Filepp.Algorithms.{to_schema}
use feedback_ingest.Filepp.Conversations.{schema_of}
use feedback_ingest.Filepp.Operation.{extract_transform_and_load}
use feedback_ingest.Filepp.Rounds.{greeting}
use feedback_ingest.Filepp.Stored.{extract_transform_and_load-Written}
use feedback_ingest.Tests.Documents.{file, document_data, messages}
use feedback_ingest.Tests.Requests.{filepp_self}
use feedback_ingest.Tests.Systems.{platform}

-- What follows the reading of the file, at the time 3.
abbrev writing : List (Event (platform file))
writing =
    (create_directories (create_dir_name schema_base_path (pos 2)), true)
    ∷ (now, 3)
    ∷ (open_output (create_json_file_name schema_base_path (pos 3) (pos 1) (pos 2)), tt)
    ∷ (write_output (create_json_file_name schema_base_path (pos 3) (pos 1) (pos 2)) [], tt)
    ∷ []

written :
    Run
      (extract_transform_and_load (platform file) (json_sink _) filepp_self)
      ((greeting (platform file) filepp_self, tt)
        ∷ (read_file (codes "in.json"), some [])
        ∷ writing)
      (returned tt)
unfolding extract_transform_and_load to_schema write make_directories print_to write_file
    serialize_to_json bytes_eq nat_eq
written = _ ▸ _ ▸ _ ▸ _ ▸ _ ▸ _ ▸ returns

extract_transform_and_load-Written_example :
    Written (platform file) (schema_of _ (pos 1) (pos 2) document_data ∷ []) writing (returned tt)
unfolding bytes_eq
extract_transform_and_load-Written_example =
    extract_transform_and_load-Written (platform file) filepp_self (tree_library-IsLawful _) [] file
      (document_data ∷ []) refl
      (
        record {
          app_version = (string (codes "1"), refl, refl);
          entries = messages;
          has_entries = refl;
          talk =
              ((string (codes "hi"), refl, refl), ((refl, (string (codes "yes"), refl, refl)), tt));
        },
        tt,
      )
      written
