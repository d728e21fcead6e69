-- ===== src/System/Talking.antt =====
-- The network operations of include/http_ops.hpp, and the timer of include/timer, keep the duties.
use feedback_ingest.Base.{ℕ, zero, suc, refl, inl, inr, Bool, true, false, Bytes}
use feedback_ingest.Platform.{Platform}
use feedback_ingest.Effects.{Task, HttpRequest, HttpResponse}
use feedback_ingest.Effects.Contract.{Keeps, Keeps-lift, Keeps-lift->>=, Keeps->>=}
use feedback_ingest.HttpOps.{
  parsed, body_in_time, read_or_wait, make_get_request_to_socket, get_over, http_get, send_response,
  send_ok_response, send_forbidden_response, send_not_found_response,
}
use feedback_ingest.Timer.{Callback, call_callback, rounds, execute}
use feedback_ingest.Application.{AnyOperationState}
use feedback_ingest.System.Duties.{IsStandard, IsAskedUrl, IsAsked, IsAskedRequest, duties}
use feedback_ingest.System.Storing.{KeepsDuties}

module _ (P : Platform) (S : AnyOperationState → Type 0) where
  open P use {Time, Socket, Endpoints}

  abbrev Quiet : {A : Type 0} → Task P A → Type 0
  Quiet = Keeps (duties P S) (λ _. Unit)

  body_in_time-Quiet : (response : Bytes × Bool) → Quiet (body_in_time P response)
  unfolding body_in_time
  body_in_time-Quiet (body, true) = tt
  body_in_time-Quiet (body, false) = tt

  make_get_request_to_socket-Quiet :
      (socket : Socket) (req : HttpRequest)
      → IsAskedRequest P S req
      → Quiet (make_get_request_to_socket P socket req)
  unfolding make_get_request_to_socket
  make_get_request_to_socket-Quiet socket req asked = (
    asked,
    λ written _.
        Keeps-lift->>= (duties P S) _ written _
          λ _ _. (tt, λ reading _. body_in_time-Quiet (read_or_wait reading)),
  )

  get_over-Quiet :
      (plain : Bool) (endpoints : Endpoints) (req : HttpRequest)
      → IsAskedRequest P S req
      → Quiet (get_over P plain endpoints req)
  unfolding get_over
  get_over-Quiet true endpoints req asked = (
    tt,
    λ connected _.
        Keeps-lift->>= (duties P S) _ connected _
          λ socket _. make_get_request_to_socket-Quiet socket req asked,
  )
  get_over-Quiet false endpoints req asked = (
    tt,
    λ connected _. Keeps-lift->>= (duties P S) _ connected _ λ socket _. (
      tt,
      λ agreed _.
          Keeps-lift->>= (duties P S) _ agreed _
            λ _ _. make_get_request_to_socket-Quiet socket req asked,
    ),
  )

  pub http_get-Quiet : (url : Bytes) → IsAskedUrl P S url → Quiet (http_get P url)
  unfolding http_get
  http_get-Quiet url asked = Keeps-lift->>= (duties P S) _ (parsed (P.parse_uri url)) _ λ u e.
      let known : IsAsked P S u = (url, asked, e) in
      (
        (u, known, refl, refl),
        λ resolved _.
            Keeps-lift->>= (duties P S) _ resolved _
              λ endpoints _. get_over-Quiet _ endpoints _ (u, known, refl),
      )

  send_response-KeepsDuties :
      (socket : Socket) (response : HttpResponse)
      → IsStandard P S response
      → KeepsDuties P S (send_response P socket response)
  unfolding send_response
  send_response-KeepsDuties socket response h =
      (h, λ written _. Keeps-lift (duties P S) _ written (λ _ _. tt))

  pub send_ok_response-KeepsDuties : (socket : Socket) → KeepsDuties P S (send_ok_response P socket)
  unfolding send_ok_response
  send_ok_response-KeepsDuties socket = send_response-KeepsDuties socket _ (inl refl)

  pub send_forbidden_response-KeepsDuties :
      (socket : Socket) → KeepsDuties P S (send_forbidden_response P socket)
  unfolding send_forbidden_response
  send_forbidden_response-KeepsDuties socket = send_response-KeepsDuties socket _ (inr (inl refl))

  pub send_not_found_response-KeepsDuties :
      (socket : Socket) → KeepsDuties P S (send_not_found_response P socket)
  unfolding send_not_found_response
  send_not_found_response-KeepsDuties socket = send_response-KeepsDuties socket _ (inr (inr refl))

  module _ (duration : ℕ) (callback : Callback P)
      (keeps : (t : Time) → KeepsDuties P S (call_callback P callback t)) where
    rounds-KeepsDuties : (n : ℕ) → KeepsDuties P S (rounds P n duration callback)
    unfolding rounds
    rounds-KeepsDuties zero = tt
    rounds-KeepsDuties (suc n) = (
      tt,
      λ t _. (
        tt,
        λ _ _.
            Keeps->>= (duties P S) (λ _. Unit) (λ _. Unit) (call_callback P callback t) _ (keeps t)
              (λ _ _. rounds-KeepsDuties n),
      ),
    )

    pub execute-KeepsDuties :
        (n : ℕ) (start_time : Time) (dedup_id : Bytes)
        → KeepsDuties P S (execute P n start_time duration callback dedup_id)
    unfolding execute
    execute-KeepsDuties n start_time dedup_id =
        Keeps->>= (duties P S) (λ _. Unit) (λ _. Unit) (call_callback P callback start_time) _
          (keeps start_time) (λ _ _. rounds-KeepsDuties n)
