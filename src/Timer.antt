-- ===== src/Timer.antt =====
-- include/timer: the interface of a timer, and the one that runs for ever on boost::asio.
pub mod Polling
pub mod Overloads
use feedback_ingest.Base.{ℕ, zero, suc, Bytes, []}
use feedback_ingest.Platform.{Platform}
use feedback_ingest.Effects.{Command, now, sleep, Task, ret, paused, ◌>>=◌, ◌>>◌, perform}

-- What the operation states ask of a timer: to call back at once with the start time, and then for
-- ever after each wait of some seconds; and the same from the present time on.
pub record Timer (P : Platform) : Type 0 where
  pub every_from : P.Time → ℕ → (P.Time → Task P (Unit {0})) → Bytes → Task P (Unit {0})
  pub every : ℕ → (P.Time → Task P (Unit {0})) → Bytes → Task P (Unit {0})

module _ (P : Platform) where
  open P use {Time}

  -- What a timer calls: its result is an awaitable, or some other value.
  pub data Callback : Type 1 where
    awaitable : (Time → Task P (Unit {0})) → Callback
    other : (A : Type 0) → (Time → Task P A) → Callback

  -- `call_callback`: an awaitable is awaited, and any other result is dropped.
  abbrev pub call_callback : Callback → Time → Task P (Unit {0})
  call_callback (awaitable callback) time = callback time
  call_callback (other A callback) time = callback time >> ret tt

  -- `for (;;)` of `execute`, for a number of rounds.
  unfoldable pub rounds : ℕ → ℕ → Callback → Task P (Unit {0})
  rounds zero duration callback = paused
  rounds (suc n) duration callback = do
    start_time ← perform now
    perform (sleep duration)
    call_callback callback start_time
    rounds n duration callback

  unfoldable pub execute : ℕ → Time → ℕ → Callback → Bytes → Task P (Unit {0})
  unfolding rounds
  execute n start_time duration callback dedup_id = do
    call_callback callback start_time
    rounds n duration callback

  -- The arguments of the four `operator()`: a start time or none, and a `dedup_id` or none.
  pub data Call : Type 1 where
    every : ℕ → Callback → Call
    every_with_id : ℕ → Callback → Bytes → Call
    every_from : Time → ℕ → Callback → Call
    every_from_with_id : Time → ℕ → Callback → Bytes → Call

  abbrev pub call : ℕ → Call → Task P (Unit {0})
  call n (every duration callback) = do
    start_time ← perform now
    execute n start_time duration callback []
  call n (every_with_id duration callback dedup_id) = do
    start_time ← perform now
    execute n start_time duration callback dedup_id
  call n (every_from start_time duration callback) = execute n start_time duration callback []
  call n (every_from_with_id start_time duration callback dedup_id) =
      execute n start_time duration callback dedup_id

  -- `execute_every_t`, observed for `n` rounds.
  abbrev pub execute_every : ℕ → Timer P
  execute_every n = record {
    every_from = λ start_time duration callback dedup_id.
        call n (every_from_with_id start_time duration (awaitable callback) dedup_id);
    every =
        λ duration callback dedup_id. call n (every_with_id duration (awaitable callback) dedup_id);
  }
