-- ===== src/Server/Routes.antt =====
-- The routes of include/rest_server.hpp, and what a request is answered by them.
use feedback_ingest.Base.{
  ok, throws, undefined, ◌≡◌, refl, Option, none, some, List, [], ◌∷◌, ◌++◌, Bytes, bytes_eq, ◌==◌,
  if◌then◌else◌,
}
use feedback_ingest.Base.Dict
use feedback_ingest.Platform.{Platform}
use feedback_ingest.Effects.{
  HttpRequest, HttpResponse, Task, ret, raise, crash, paused, step, Ensures, find_route,
  register_route,
}
use feedback_ingest.Effects.Traces.{replies, response_of}
use feedback_ingest.HttpOps.{not_found_response, send_not_found_response, send_response}
use feedback_ingest.Sink.{Sink}
use feedback_ingest.Sink.Silence.{IsSilent}
use feedback_ingest.Notifyu.{NotifyuOperationState}
use feedback_ingest.Notifyu.Algorithms.{parse_content}
use feedback_ingest.Notifyu.Handler.{expected_replies, extract_transform_and_load-replies}
use feedback_ingest.Server
use feedback_ingest.Server.{RestServer, find_handler, invoke, handle_request}

-- A registered route has its handler, the last one that was registered; the others are as before.
pub find_handler-register_route :
    (target path : Bytes) (handler : NotifyuOperationState) (server : RestServer)
    → find_handler target (Server.register_route path handler server)
      ≡ (if target == path then some handler else find_handler target server)
unfolding find_handler Server.register_route
find_handler-register_route target path handler server =
    Dict.lookup-insert target path handler server.route_handlers

module _ {P : Platform} {A : Type 0} where
  -- A coroutine beside the routes of a server: the commands on routes are done, the others are left.
  abbrev pub with_routes : Task P A → RestServer → Task P A
  with_routes (ret a) server = ret a
  with_routes (raise e) server = raise e
  with_routes crash server = crash
  with_routes paused server = paused
  with_routes (step (find_route target) k) server =
      with_routes (k (find_handler target server)) server
  with_routes (step (register_route path handler) k) server =
      with_routes (k tt) (Server.register_route path handler server)
  with_routes (step c k) server = step c (λ r. with_routes (k r) server)

  -- What is ensured of the responses stays ensured beside the routes.
  pub replies-with_routes {ℓ} :
      (m : Task P A) (R : List HttpResponse → Type ℓ) (server : RestServer)
      → Ensures (λ events ending. R (replies events)) m
      → Ensures (λ events ending. R (replies events)) (with_routes m server)
  replies-with_routes (ret a) R server q = q
  replies-with_routes (raise e) R server q = q
  replies-with_routes crash R server q = q
  replies-with_routes paused R server q = q
  replies-with_routes (step (find_route target) k) R server q =
      replies-with_routes (k (find_handler target server)) R server (q (find_handler target server))
  replies-with_routes (step (register_route path handler) k) R server q =
      replies-with_routes (k tt) R (Server.register_route path handler server) (q tt)
  replies-with_routes (step c k) R server q =
      λ r. replies-with_routes (k r) (λ rs. R (response_of c ++ rs)) server (q r)

module _ (P : Platform) (sink : Sink P) where
  send_not_found-replies :
      (socket : P.Socket)
      → Ensures
          (λ events ending. replies events ≡ not_found_response ∷ [])
          (send_not_found_response P socket)
  unfolding send_not_found_response send_response
  send_not_found-replies socket = elim [ ok tt ↦ refl | throws e ↦ refl | undefined ↦ refl ]

  -- The answer of a route with a handler, or without one.
  abbrev pub route_replies : Option NotifyuOperationState → HttpRequest → List HttpResponse
  route_replies (some self) req =
      expected_replies P sink self (parse_content P.json self.source_id self.tenant_id req.body)
  route_replies none req = not_found_response ∷ []

  invoke-replies :
      IsSilent P sink
      → (it : Option NotifyuOperationState) (req : HttpRequest) (socket : P.Socket)
      → Ensures
          (λ events ending. replies events ≡ route_replies it req)
          (invoke P sink it req socket)
  unfolding invoke
  invoke-replies S (some self) req socket =
      extract_transform_and_load-replies P sink self S req socket
  invoke-replies S none req socket = send_not_found-replies socket

  -- With a sink that answers nothing, a request is answered as the handler of its target answers
  -- it, and once with 404 where the target has no handler.
  pub handle_request-replies :
      IsSilent P sink
      → (req : HttpRequest) (socket : P.Socket) (server : RestServer)
      → Ensures
          (λ events ending. replies events ≡ route_replies (find_handler req.target server) req)
          (with_routes (handle_request P sink req socket) server)
  unfolding handle_request
  handle_request-replies S req socket server =
      let it = find_handler req.target server in
      replies-with_routes (invoke P sink it req socket) (λ rs. rs ≡ route_replies it req) server
        (invoke-replies S it req socket)
