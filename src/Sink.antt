-- ===== src/Sink.antt =====
-- include/sink: where schemas go (`is_sink`), and the sink that writes them to JSON files.
pub mod Files
pub mod Silence
pub mod Names
use feedback_ingest.Base.{
  Bool, true, false, List, [], ◌∷◌, ◌++◌, Bytes, codes, Outcome, ok, throws, undefined,
  filesystem_error,
}
use feedback_ingest.Base.Int.{ℤ}
use feedback_ingest.Base.Decimal.{to_string}
use feedback_ingest.Platform.{Platform}
use feedback_ingest.Schema.{Schema}
use feedback_ingest.Serializer.{serialize_to_json}
use feedback_ingest.Effects.{
  now, open_output, write_output, write_part, create_directories, Task, ret, raise, crash, ◌>>=◌,
  ◌>>◌, lift, perform,
}

-- The concept `is_sink`.
pub record Sink (P : Platform) : Type 0 where
  pub write : List (Schema P.json.Real) → Task P (Unit {0})

-- `rd::schema_base_path`
abbrev pub schema_base_path : Bytes
schema_base_path = codes "/home/rishabh/dumps"

unfoldable pub create_json_file_name : Bytes → ℤ → ℤ → ℤ → Bytes
unfolding to_string
create_json_file_name base_path cur_time source_id tenant_id =
    base_path
    ++ (b'/'
        ∷ (to_string tenant_id
            ++ (b'/' ∷ (to_string source_id ++ (b'_' ∷ (to_string cur_time ++ codes ".json"))))))

unfoldable pub create_dir_name : Bytes → ℤ → Bytes
unfolding to_string
create_dir_name base_path tenant_id = base_path ++ (b'/' ∷ (to_string tenant_id ++ (b'/' ∷ [])))

module _ (P : Platform) where
  -- `of << content`, where `content` is what the printing comes to: where it throws, a part of the
  -- text has been written.
  unfoldable pub print_to : Bytes → Outcome Bytes → Task P (Unit {0})
  print_to file_path (ok text) = perform (write_output file_path text)
  print_to file_path (throws e) = perform (write_part file_path) >> raise e
  print_to file_path undefined = crash

  -- `write_file` of include/file_ops.hpp: the file is opened before its content is printed.
  unfoldable pub write_file : Outcome Bytes → Bytes → Task P (Unit {0})
  unfolding print_to
  write_file content file_path = do perform (open_output file_path); print_to file_path content

  -- `std::filesystem::create_directories`
  unfoldable pub make_directories : Bytes → Task P (Unit {0})
  make_directories dir_name = do
    made ← perform (create_directories dir_name)
    elim made [ true ↦ ret tt | false ↦ raise filesystem_error ]

  -- `json_sink_t::write`
  unfoldable pub write : List (Schema P.json.Real) → Task P (Unit {0})
  unfolding write_file make_directories create_dir_name create_json_file_name
  write [] = ret tt
  write (schema ∷ schemas) = do
    make_directories (create_dir_name schema_base_path schema.tenant_id)
    j ← lift (serialize_to_json P.json (schema ∷ schemas))
    time ← perform now
    write_file (P.json.dump j)
        (create_json_file_name schema_base_path (P.count time) schema.source_id schema.tenant_id)

  abbrev pub json_sink : Sink P
  json_sink = record { write = write }
