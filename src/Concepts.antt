-- ===== src/Concepts.antt =====
-- The interfaces include/rest_server_concepts.hpp and include/data_source/operation_state_concept.hpp.
use feedback_ingest.Base.{Bytes}
use feedback_ingest.Platform.{Platform}
use feedback_ingest.Effects.{Task}

-- The concept `is_rest_server` with its `handler_t`. `Handler` stands for what the handler holds.
pub record RestServerConcept (P : Platform) (Handler : Type 0) : Type 0 where
  pub register_route : Bytes → Handler → Task P (Unit {0})
  pub start_server : Task P (Unit {0})

-- The concept `is_operation_state`.
pub record OperationStateConcept (P : Platform) (T : Type 0) : Type 0 where
  pub start : T → Task P (Unit {0})
