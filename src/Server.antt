-- ===== src/Server.antt =====
-- include/rest_server.hpp
pub mod Routes
pub mod Sessions
use feedback_ingest.Base.{ℕ, zero, suc, Option, none, some, Bytes, bytes_eq}
use feedback_ingest.Base.Dict
use feedback_ingest.Base.Dict.{Dict}
use feedback_ingest.Platform.{Platform}
use feedback_ingest.Effects.{
  HttpRequest, register_route as route_command, listen, accept, spawn_session, read_request,
  shutdown, find_route, Task, ret, paused, ◌>>=◌, ◌>>◌, lift, perform,
}
use feedback_ingest.HttpOps.{send_not_found_response}
use feedback_ingest.Concepts.{RestServerConcept}
use feedback_ingest.Sink.{Sink}
use feedback_ingest.Notifyu.{NotifyuOperationState}
use feedback_ingest.Notifyu.Operation.{extract_transform_and_load}

-- The members of `rest_server`.
pub record RestServer : Type 0 where
  pub port : ℕ
  pub route_handlers : Dict Bytes NotifyuOperationState

-- `rest_server::register_route`: a path that has a handler gets the new one.
unfoldable pub register_route : Bytes → NotifyuOperationState → RestServer → RestServer
unfolding Dict.insert
register_route path handler server = record server {
  route_handlers = Dict.insert path handler server.route_handlers;
}

-- `route_handlers_.find(target)`
unfoldable pub find_handler : Bytes → RestServer → Option NotifyuOperationState
unfolding Dict.lookup
find_handler target server = Dict.lookup target server.route_handlers

module _ (P : Platform) (sink : Sink P) where
  open P use {Socket}

  -- `std::invoke(it->second, req, socket)`, or the answer that there is no such route.
  unfoldable pub invoke : Option NotifyuOperationState → HttpRequest → Socket → Task P (Unit {0})
  unfolding extract_transform_and_load send_not_found_response
  invoke (some self) req socket = extract_transform_and_load P sink self req socket
  invoke none req socket = send_not_found_response P socket

  unfoldable pub handle_request : HttpRequest → Socket → Task P (Unit {0})
  unfolding invoke
  handle_request req socket = do it ← perform (find_route req.target); invoke it req socket

  unfoldable pub session : Socket → Task P (Unit {0})
  unfolding handle_request
  session socket = do
    got ← perform (read_request socket)
    req ← lift got
    handle_request req socket
    perform (shutdown socket)

  -- `while (true)` of `start_server`, for a number of rounds. The session runs beside the loop.
  unfoldable pub accept_loop : ℕ → Task P (Unit {0})
  accept_loop zero = paused
  accept_loop (suc n) = do
    accepted ← perform accept
    socket ← lift accepted
    perform (spawn_session socket)
    accept_loop n

  unfoldable pub start_server : ℕ → ℕ → Task P (Unit {0})
  unfolding accept_loop
  start_server n port = do bound ← perform (listen port); lift bound; accept_loop n

  -- `rest_server` is an `is_rest_server`.
  abbrev pub rest_server : ℕ → ℕ → RestServerConcept P NotifyuOperationState
  rest_server n port = record {
    register_route = λ path handler. perform (route_command path handler);
    start_server = start_server n port;
  }
