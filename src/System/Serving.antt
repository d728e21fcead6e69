-- ===== src/System/Serving.antt =====
-- The server of include/rest_server.hpp keeps the duties, as long as its routes are served.
use feedback_ingest.Base.{ℕ, zero, suc, Option, none, some}
use feedback_ingest.Platform.{Platform}
use feedback_ingest.Effects.{HttpRequest}
use feedback_ingest.Effects.Contract.{Keeps-lift->>=, Keeps->>=}
use feedback_ingest.Sink.{json_sink}
use feedback_ingest.Notifyu.{NotifyuOperationState}
use feedback_ingest.Server.{invoke, handle_request, session, accept_loop, start_server}
use feedback_ingest.Application.{AnyOperationState}
use feedback_ingest.System.Duties.{duties, Serves}
use feedback_ingest.System.Storing.{KeepsDuties}
use feedback_ingest.System.Talking.{send_not_found_response-KeepsDuties}
use feedback_ingest.System.Sources.{handler-KeepsDuties}
use feedback_ingest.Base.{Bytes}

module _ (P : Platform) (S : AnyOperationState → Type 0) where
  open P use {Socket}

  invoke-KeepsDuties :
      (target : Bytes) (it : Option NotifyuOperationState) (req : HttpRequest) (socket : Socket)
      → Serves P S target it
      → KeepsDuties P S (invoke P (json_sink P) it req socket)
  unfolding invoke
  invoke-KeepsDuties target none req socket h = send_not_found_response-KeepsDuties P S socket
  invoke-KeepsDuties target (some self) req socket (there, _) =
      handler-KeepsDuties P S self there req socket

  handle_request-KeepsDuties :
      (req : HttpRequest) (socket : Socket)
      → KeepsDuties P S (handle_request P (json_sink P) req socket)
  unfolding handle_request
  handle_request-KeepsDuties req socket =
      (tt, λ it h. invoke-KeepsDuties req.target it req socket h)

  pub session-KeepsDuties : (socket : Socket) → KeepsDuties P S (session P (json_sink P) socket)
  unfolding session
  session-KeepsDuties socket = (
    tt,
    λ got _.
        Keeps-lift->>= (duties P S) (λ _. Unit) got _
          λ req _.
            Keeps->>= (duties P S) (λ _. Unit) (λ _. Unit)
              (handle_request P (json_sink P) req socket) _ (handle_request-KeepsDuties req socket)
              (λ _ _. (tt, λ _ _. tt)),
  )

  accept_loop-KeepsDuties : (n : ℕ) → KeepsDuties P S (accept_loop P (json_sink P) n)
  unfolding accept_loop
  accept_loop-KeepsDuties zero = tt
  accept_loop-KeepsDuties (suc n) = (
    tt,
    λ accepted _.
        Keeps-lift->>= (duties P S) (λ _. Unit) accepted _
          λ socket _. (tt, λ _ _. accept_loop-KeepsDuties n),
  )

  pub start_server-KeepsDuties :
      (n port : ℕ) → KeepsDuties P S (start_server P (json_sink P) n port)
  unfolding start_server
  start_server-KeepsDuties n port = (
    tt,
    λ bound _. Keeps-lift->>= (duties P S) (λ _. Unit) bound _ λ _ _. accept_loop-KeepsDuties n,
  )
