-- ===== src/Sink/Files.antt =====
-- What `json_sink_t::write` of include/sink/json_sink.hpp leaves in the file system.
use feedback_ingest.Base.{
  ◌≡◌, refl, ◌⊎◌, inl, inr, true, false, List, [], ◌∷◌, Bytes, Outcome, ok, throws, undefined, some,
  filesystem_error,
}
use feedback_ingest.Platform.{Platform}
use feedback_ingest.Json.{IsLawful}
use feedback_ingest.Schema.{Schema}
use feedback_ingest.Serializer.Reader.{read_all, read_schema}
use feedback_ingest.Serializer.RoundTrip.{serialize_to_json_lem}
use feedback_ingest.Effects.{
  now, open_output, write_output, write_part, create_directories, Ending, returned, raised, crashed,
  Event, Ensures,
}
use feedback_ingest.Effects.Traces.{Ensures-mono}
use feedback_ingest.Sink.{
  schema_base_path, create_json_file_name, create_dir_name, write_file, print_to, make_directories,
  write,
}

module _ (P : Platform) where
  open P use {json, Time}

  -- How the writing of a file with the text `content` goes on and ends.
  abbrev pub Filed : Outcome Bytes → Bytes → List (Event P) → Ending (Unit {0}) → Type 0
  Filed (ok text) path events ending =
      (events ≡ (open_output path, tt) ∷ (write_output path text, tt) ∷ []) × (ending ≡ returned tt)
  Filed (throws e) path events ending =
      (events ≡ (open_output path, tt) ∷ (write_part path, tt) ∷ []) × (ending ≡ raised e)
  Filed undefined path events ending = (events ≡ (open_output path, tt) ∷ []) × (ending ≡ crashed)

  write_file-Filed :
      (content : Outcome Bytes) (path : Bytes)
      → Ensures (Filed content path) (write_file P content path)
  unfolding write_file print_to
  write_file-Filed (ok text) path = λ r. λ s. (refl, refl)
  write_file-Filed (throws e) path = λ r. λ s. (refl, refl)
  write_file-Filed undefined path = λ r. (refl, refl)

  -- How the writing of the file goes on once the directory is there, at the time `t`.
  abbrev pub WrittenAt :
      Schema json.Real → json.Json → Time → List (Event P) → Ending (Unit {0}) → Type 0
  WrittenAt s j t =
      Filed (json.dump j)
        (create_json_file_name schema_base_path (P.count t) s.source_id s.tenant_id)

  -- What the writing of a list does: nothing for the empty list. Else the directory of the first
  -- schema's tenant is made, which may fail, and then one file is written.
  abbrev pub Written : List (Schema json.Real) → List (Event P) → Ending (Unit {0}) → Type 0
  Written [] events ending = (events ≡ []) × (ending ≡ returned tt)
  Written (s ∷ ss) events ending =
      ((events ≡ (create_directories (create_dir_name schema_base_path s.tenant_id), false) ∷ [])
        × (ending ≡ raised filesystem_error))
      ⊎ ((j : json.Json) × (t : Time) × (more : List (Event P)) × (events
            ≡ (create_directories (create_dir_name schema_base_path s.tenant_id), true)
              ∷ (now, t)
              ∷ more)
          × WrittenAt s j t more ending
          × (read_all (read_schema json) (json.elements j) ≡ some (s ∷ ss)))

  -- For every answer of the system, the sink does nothing with the empty list. Else it makes the
  -- directory, and where that fails it ends with `filesystem_error`; then it opens one file for a
  -- JSON value that, read back, is the list, and writes its text, or, where the value cannot be
  -- printed, a part of a text, and ends with the exception of the printing.
  pub write-Written :
      IsLawful json → (ss : List (Schema json.Real)) → Ensures (Written ss) (write P ss)
  unfolding write make_directories
  write-Written L [] = (refl, refl)
  write-Written L (s ∷ ss) = elim [
    | true ↦
        let (j, e, said) = serialize_to_json_lem json L (s ∷ ss) in
        rw e (λ t.
          Ensures-mono (write_file P (json.dump j) _) (WrittenAt s j t)
            (λ more ending.
              Written (s ∷ ss)
                ((create_directories (create_dir_name schema_base_path s.tenant_id), true)
                  ∷ (now, t)
                  ∷ more)
                ending)
            (λ more ending h. inr (j, t, more, refl, h, said)) (write_file-Filed (json.dump j) _))
    | false ↦ inl (refl, refl)
  ]
