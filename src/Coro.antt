-- ===== src/Coro.antt =====
-- `rd::sleep` of include/coro.hpp.
use feedback_ingest.Base.{ℕ}
use feedback_ingest.Platform.{Platform}
use feedback_ingest.Effects.{Task, perform, sleep as wait}

-- A timer is made that expires after the duration, in seconds, and its end is awaited.
unfoldable pub sleep : (P : Platform) → ℕ → Task P (Unit {0})
sleep P duration = perform (wait duration)
