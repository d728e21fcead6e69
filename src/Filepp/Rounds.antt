-- ===== src/Filepp/Rounds.antt =====
-- One round of the polling of include/data_source/filepp/filepp_operation_state.hpp.
use feedback_ingest.Base.{◌≡◌, refl, List, ◌∷◌, Option, Bytes, codes}
use feedback_ingest.Platform.{Platform}
use feedback_ingest.FileOps.{content_of}
use feedback_ingest.Schema.{Schema}
use feedback_ingest.Effects.{Ending, Event, Ensures, Command, log, info_ids, read_file, lift, ◌>>=◌}
use feedback_ingest.Effects.Traces.{Ensures-mono}
use feedback_ingest.Effects.After.{After, lift-After}
use feedback_ingest.Sink.{Sink}
use feedback_ingest.Filepp.{FileppOperationState}
use feedback_ingest.Filepp.Algorithms.{to_schema}
use feedback_ingest.Filepp.Operation.{extract_transform_and_load}

module _ (P : Platform) (self : FileppOperationState) where
  abbrev pub greeting : Command P
  greeting = log (
      info_ids (codes "filepp: Processing data for source_id: {}, tenant_id: {}") self.source_id
        self.tenant_id)

module _ (P : Platform)
    (W : List (Schema P.json.Real) → List (Event P) → Ending (Unit {0}) → Type 0)
    (self : FileppOperationState) where
  -- The file is read once. What it holds is read as schemas, and then `W` says what is done with
  -- them.
  abbrev pub FileRound : List (Event P) → Ending (Unit {0}) → Type 0
  FileRound events ending =
      (found : Option Bytes) × (more : List (Event P)) × (events
        ≡ (greeting P self, tt) ∷ (read_file self.filepp_info.file_path, found) ∷ more)
      × After W (to_schema P.json self.source_id self.tenant_id (content_of found)) more ending

  -- If the sink does with schemas what `W` says, a round reads the file once and gives the sink
  -- exactly the schemas that the content is read as; a content that cannot be read as schemas ends
  -- the round with its failure, and the sink is not called.
  pub extract_transform_and_load-FileRound :
      (sink : Sink P)
      → ((schemas : List (Schema P.json.Real)) → Ensures (W schemas) (sink.write schemas))
      → Ensures FileRound (extract_transform_and_load P sink self)
  unfolding extract_transform_and_load
  extract_transform_and_load-FileRound sink writes = λ _ found.
      let schemas = to_schema P.json self.source_id self.tenant_id (content_of found) in
      Ensures-mono (lift schemas >>= sink.write) (After W schemas)
        (λ more.
          FileRound ((greeting P self, tt) ∷ (read_file self.filepp_info.file_path, found) ∷ more))
        (λ more ending h. (found, more, refl, h)) (lift-After W schemas sink.write writes)
