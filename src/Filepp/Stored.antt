-- ===== src/Filepp/Stored.antt =====
-- From a file to the file that is written: include/data_source/filepp with the sink of
-- include/sink/json_sink.hpp.
use feedback_ingest.Base.{
  ◌≡◌, some, List, ◌∷◌, map, Bytes, Outcome, AllPairs, refl, none, [], Option, ok, ap, ◌∙◌,
}
use mathlib.Core.Path.{subst}
use feedback_ingest.Json.{IsLawful}
use feedback_ingest.Platform.{Platform}
use feedback_ingest.Schema.{Schema}
use feedback_ingest.Effects.{Ending, Event, Ensures, read_file, lift, ◌>>=◌}
use feedback_ingest.Effects.After.{After, lift-After}
use feedback_ingest.Effects.Runs.{Run, Run-Ensures}
use feedback_ingest.Effects.Traces.{Ensures-mono}
use feedback_ingest.FileOps.{content_of}
use feedback_ingest.Sink.{json_sink}
use feedback_ingest.Sink.Files.{Written, write-Written}
use feedback_ingest.Filepp.{FileppOperationState}
use feedback_ingest.Filepp.Algorithms.{to_schema}
use feedback_ingest.Filepp.Operation.{extract_transform_and_load}
use feedback_ingest.Filepp.Rounds.{greeting}
use feedback_ingest.Filepp.Conversations.{
  DocumentData, ShowsDocument, schema_of, to_schema-ShowsDocument,
}

module _ (P : Platform) (self : FileppOperationState) where
  open P use {json}

  -- What a round found in its file, and what follows the reading.
  abbrev found_in : List (Event P) → Option Bytes
  found_in (_ ∷ (read_file path, found) ∷ more) = found
  found_in _ = none

  abbrev after_reading : List (Event P) → List (Event P)
  after_reading (_ ∷ _ ∷ more) = more
  after_reading _ = []

  module _ (content : Bytes) (schemas : List (Schema json.Real))
      (read : to_schema json self.source_id self.tenant_id content ≡ ok schemas) where
    abbrev WritesWhatIsRead : List (Event P) → Ending (Unit {0}) → Type 0
    WritesWhatIsRead events ending =
        found_in events ≡ some content → Written P schemas (after_reading events) ending

    extract_transform_and_load-WritesWhatIsRead :
        IsLawful json → Ensures WritesWhatIsRead (extract_transform_and_load P (json_sink P) self)
    unfolding extract_transform_and_load
    extract_transform_and_load-WritesWhatIsRead L = λ _ found.
        let of : Option Bytes → Outcome (List (Schema json.Real)) =
          λ f. to_schema json self.source_id self.tenant_id (content_of f) in
        Ensures-mono (lift (of found) >>= (json_sink P).write) (After (Written P) (of found))
          (λ more ending. found ≡ some content → Written P schemas more ending)
          (λ more ending h e. subst (λ o. After (Written P) o more ending) (ap of e ∙ read) h)
          (lift-After (Written P) (of found) (json_sink P).write (write-Written P L))

  -- A round that finds some documents in its file then writes one file with the text of a JSON value
  -- that, read back, is exactly these documents in their order, each with its messages in their
  -- order, with the ids of the source and the tenant. A directory that cannot be made or a value that
  -- cannot be printed ends the round with its exception.
  pub extract_transform_and_load-Written :
      IsLawful json
      → (content : Bytes) (j : json.Json) (documents : List (DocumentData json))
      → json.parse content ≡ some j
      → AllPairs (ShowsDocument json) (json.elements j) documents
      → {events : List (Event P)} {ending : Ending (Unit {0})}
      → Run
          (extract_transform_and_load P (json_sink P) self)
          ((greeting P self, tt) ∷ (read_file self.filepp_info.file_path, some content) ∷ events)
          ending
      → Written P (map (schema_of json self.source_id self.tenant_id) documents) events ending
  extract_transform_and_load-Written L content j documents parsed shows run =
      Run-Ensures
        (WritesWhatIsRead content _
          (to_schema-ShowsDocument json L _ _ content j documents parsed shows))
        run
        (extract_transform_and_load-WritesWhatIsRead content _
          (to_schema-ShowsDocument json L _ _ content j documents parsed shows) L)
        refl
