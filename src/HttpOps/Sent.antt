-- ===== src/HttpOps/Sent.antt =====
-- The three responses of include/http_ops.hpp, and what follows them.
use feedback_ingest.Base.{◌≡◌, refl, List, ◌∷◌, Outcome}
use feedback_ingest.Platform.{Platform}
use feedback_ingest.Effects.{HttpResponse, write_response, Task, Ending, Event, Ensures, lift, ◌>>◌}
use feedback_ingest.Effects.Traces.{Ensures-mono}
use feedback_ingest.Effects.After.{After, Gives, lift-After, lift-Gives}
use feedback_ingest.HttpOps.{send_response}

module _ (P : Platform) (socket : P.Socket) (response : HttpResponse) where
  -- One response is written, which may fail, and then it goes on as `R` says.
  abbrev pub Sent :
      (List (Event P) → Ending (Unit {0}) → Type 0) → List (Event P) → Ending (Unit {0}) → Type 0
  Sent R events ending =
      (written : Outcome (Unit {0})) × (more : List (Event P)) × (events
        ≡ (write_response socket response, written) ∷ more)
      × After (λ _. R) written more ending

  pub send_response-Sent : Ensures (Sent (Gives tt)) (send_response P socket response)
  unfolding send_response
  send_response-Sent = λ written.
      Ensures-mono (lift written) (After Gives written) _
        (λ more ending h. (written, more, refl, h)) (lift-Gives P written)

  pub send_response->> :
      (R : List (Event P) → Ending (Unit {0}) → Type 0) (next : Task P (Unit {0}))
      → Ensures R next
      → Ensures (Sent R) (send_response P socket response >> next)
  unfolding send_response
  send_response->> R next h = λ written.
      Ensures-mono (lift written >> next) (After (λ _. R) written) _
        (λ more ending k. (written, more, refl, k))
        (lift-After (λ _. R) written (λ _. next) (λ _. h))
