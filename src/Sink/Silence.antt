-- ===== src/Sink/Silence.antt =====
-- Sinks (include/sink) that answer no request, as `json_sink_t` is one.
use feedback_ingest.Base.{
  ◌≡◌, refl, true, false, List, [], ◌∷◌, Bytes, Outcome, ok, throws, undefined,
}
use feedback_ingest.Platform.{Platform}
use feedback_ingest.Schema.{Schema}
use feedback_ingest.Serializer.{serialize_to_json}
use feedback_ingest.Effects.{Task, Ensures, lift, ◌>>=◌, perform, now}
use feedback_ingest.Effects.Traces.{replies}
use feedback_ingest.Sink.{
  Sink, print_to, write_file, make_directories, write, json_sink, create_json_file_name,
  schema_base_path,
}

module _ (P : Platform) where
  -- A coroutine that gives no response to the network.
  abbrev pub Silent : Task P (Unit {0}) → Type 0
  Silent m = Ensures (λ events ending. replies events ≡ []) m

  pub record IsSilent (sink : Sink P) : Type 0 where
    pub silent : (schemas : List (Schema P.json.Real)) → Silent (sink.write schemas)

  write_file-Silent : (content : Outcome Bytes) (path : Bytes) → Silent (write_file P content path)
  unfolding write_file print_to
  write_file-Silent (ok text) path = λ _ _. refl
  write_file-Silent (throws e) path = λ _ _. refl
  write_file-Silent undefined path = λ _. refl

  write_text-Silent :
      (s : Schema P.json.Real) (content : Outcome P.json.Json)
      → Silent (do
        j ← lift content
        time ← perform now
        write_file P
            (P.json.dump j)
            (create_json_file_name schema_base_path (P.count time) s.source_id s.tenant_id))
  write_text-Silent s (ok j) = λ t. write_file-Silent (P.json.dump j) _
  write_text-Silent s (throws e) = refl
  write_text-Silent s undefined = refl

  write-Silent : (schemas : List (Schema P.json.Real)) → Silent (write P schemas)
  unfolding write make_directories
  write-Silent [] = refl
  write-Silent (s ∷ ss) = elim [
    | true ↦ write_text-Silent s (serialize_to_json P.json (s ∷ ss))
    | false ↦ refl
  ]

  pub json_sink-IsSilent : IsSilent (json_sink P)
  json_sink-IsSilent = record { silent = write-Silent }
