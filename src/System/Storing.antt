-- ===== src/System/Storing.antt =====
-- The sink of include/sink/json_sink.hpp keeps to the files of the schemas' source and tenant.
use feedback_ingest.Base.{
  ◌≡◌, refl, true, false, List, [], ◌∷◌, Bytes, Outcome, ok, throws, undefined, All,
}
use feedback_ingest.Platform.{Platform}
use feedback_ingest.Schema.{Schema}
use feedback_ingest.Schema.Stamp.{IsStamped}
use feedback_ingest.Serializer.{serialize_to_json}
use feedback_ingest.Effects.{Task}
use feedback_ingest.Effects.Contract.{Keeps, Keeps-lift->>=, Keeps->>=}
use feedback_ingest.Sink.{
  schema_base_path, create_dir_name, print_to, write_file, make_directories, write,
}
use feedback_ingest.Application.{AnyOperationState, source_id_of, tenant_id_of}
use feedback_ingest.System.Duties.{IsOwned, IsOwnedText, IsOwnedDirectory, duties}

module _ (P : Platform) (S : AnyOperationState → Type 0) where
  abbrev pub KeepsDuties : Task P (Unit {0}) → Type 0
  KeepsDuties = Keeps (duties P S) (λ _. Unit)

  write_file-KeepsDuties :
      (content : Outcome Bytes) (path : Bytes)
      → IsOwned P S path
      → ((text : Bytes) → content ≡ ok text → IsOwnedText P S path text)
      → KeepsDuties (write_file P content path)
  unfolding write_file print_to
  write_file-KeepsDuties (ok text) path owned texts = (owned, λ _ _. (texts text refl, λ _ _. tt))
  write_file-KeepsDuties (throws e) path owned texts = (owned, λ _ _. (owned, λ _ _. tt))
  write_file-KeepsDuties undefined path owned texts = (owned, λ _ _. tt)

  make_directories-KeepsDuties :
      (dir : Bytes) → IsOwnedDirectory P S dir → KeepsDuties (make_directories P dir)
  unfolding make_directories
  make_directories-KeepsDuties dir owned = (owned, elim [ true ↦ λ _. tt | false ↦ λ _. tt ])

  -- Of schemas that carry the ids of an operation state, the sink writes only to a file of its
  -- source and tenant.
  pub write-KeepsDuties :
      (o : AnyOperationState)
      → S o
      → (schemas : List (Schema P.json.Real))
      → All (IsStamped (source_id_of o) (tenant_id_of o)) schemas
      → KeepsDuties (write P schemas)
  unfolding write
  write-KeepsDuties o there [] stamped = tt
  write-KeepsDuties o there (s ∷ ss) ((source, tenant), stamped) =
      Keeps->>= (duties P S) (λ _. Unit) (λ _. Unit)
        (make_directories P (create_dir_name schema_base_path s.tenant_id)) _
        (make_directories-KeepsDuties _ (o, there, rw tenant refl))
        (λ _ _.
          Keeps-lift->>= (duties P S) (λ _. Unit) (serialize_to_json P.json (s ∷ ss)) _
            λ j e. (
              tt,
              λ t _.
                  write_file-KeepsDuties (P.json.dump j) _ (o, there, t, rw (source, tenant) refl)
                    (λ text d. (
                      o,
                      there,
                      t,
                      rw (source, tenant) refl,
                      s ∷ ss,
                      ((source, tenant), stamped),
                      j,
                      e,
                      d,
                    )),
            ))
