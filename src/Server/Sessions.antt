-- ===== src/Server/Sessions.antt =====
-- One session of include/rest_server.hpp, and the loop that accepts them.
use feedback_ingest.Base.{ℕ, zero, suc, ◌≡◌, refl, Option, none, some, List, [], ◌∷◌, Outcome}
use feedback_ingest.Platform.{Platform}
use feedback_ingest.Schema.{Schema}
use feedback_ingest.Effects.{
  HttpRequest, find_route, read_request, shutdown, accept, spawn_session, listen, Ending, returned,
  unfinished, Event, Ensures, lift, ◌>>=◌, ◌>>◌, perform,
}
use feedback_ingest.Effects.Traces.{Ensures-mono}
use feedback_ingest.Effects.After.{After, Gives, lift-After, InTurn, Ensures-InTurn}
use feedback_ingest.Effects.Reported.{Reported}
use feedback_ingest.HttpOps.{not_found_response, send_not_found_response}
use feedback_ingest.HttpOps.Sent.{Sent, send_response-Sent}
use feedback_ingest.Sink.{Sink}
use feedback_ingest.Notifyu.{NotifyuOperationState}
use feedback_ingest.Notifyu.Requests.{
  failure_reports, RequestRound, extract_transform_and_load-RequestRound,
}
use feedback_ingest.Server.{invoke, handle_request, session, accept_loop, start_server}

module _ (P : Platform)
    (W : List (Schema P.json.Real) → List (Event P) → Ending (Unit {0}) → Type 0) where
  open P use {Socket}

  -- What a route with a handler, or without one, does with a request.
  abbrev pub Routed :
      HttpRequest
      → Socket
      → Option NotifyuOperationState
      → List (Event P)
      → Ending (Unit {0})
      → Type 0
  Routed req socket (some self) =
      Reported P (failure_reports P W self) (RequestRound P W self req socket)
  Routed req socket none = Sent P socket not_found_response (Gives tt)

  -- The route is looked up by the target of the request.
  abbrev pub HandledRequest : HttpRequest → Socket → List (Event P) → Ending (Unit {0}) → Type 0
  HandledRequest req socket events ending =
      (it : Option NotifyuOperationState) × (more : List (Event P)) × (events
        ≡ (find_route req.target, it) ∷ more)
      × Routed req socket it more ending

  abbrev pub ShutDown : Socket → List (Event P) → Ending (Unit {0}) → Type 0
  ShutDown socket events ending = (events ≡ (shutdown socket, tt) ∷ []) × (ending ≡ returned tt)

  -- One request is read, which may fail, and handled, and then the socket is shut down.
  abbrev pub SessionRound : Socket → List (Event P) → Ending (Unit {0}) → Type 0
  SessionRound socket events ending =
      (got : Outcome HttpRequest) × (more : List (Event P)) × (events
        ≡ (read_request socket, got) ∷ more)
      × After (λ req. InTurn (HandledRequest req socket) (λ _. ShutDown socket)) got more ending

  module _ (sink : Sink P)
      (writes : (schemas : List (Schema P.json.Real))
        → Ensures (W schemas) (sink.write schemas)) where
    invoke-Routed :
        (req : HttpRequest) (socket : Socket) (it : Option NotifyuOperationState)
        → Ensures (Routed req socket it) (invoke P sink it req socket)
    unfolding invoke send_not_found_response
    invoke-Routed req socket (some self) =
        extract_transform_and_load-RequestRound P W self sink writes req socket
    invoke-Routed req socket none = send_response-Sent P socket not_found_response

    handle_request-HandledRequest :
        (req : HttpRequest) (socket : Socket)
        → Ensures (HandledRequest req socket) (handle_request P sink req socket)
    unfolding handle_request
    handle_request-HandledRequest req socket = λ it.
        Ensures-mono (invoke P sink it req socket) (Routed req socket it) _
          (λ more ending h. (it, more, refl, h)) (invoke-Routed req socket it)

    -- If the sink does with schemas what `W` says, a session reads one request, looks up the route
    -- of its target, and does what its handler does, or answers 404 without one; then the socket is
    -- shut down. A request that cannot be read, or a 404 that cannot be sent, ends the session with
    -- its exception.
    pub session-SessionRound :
        (socket : Socket) → Ensures (SessionRound socket) (session P sink socket)
    unfolding session
    session-SessionRound socket = λ got.
        let next : HttpRequest → _ =
          λ req. handle_request P sink req socket >> perform (shutdown socket) in
        Ensures-mono (lift got >>= next)
          (After (λ req. InTurn (HandledRequest req socket) (λ _. ShutDown socket)) got) _
          (λ more ending h. (got, more, refl, h))
          (lift-After _ got next (λ req.
            Ensures-InTurn (HandledRequest req socket) (λ _. ShutDown socket)
              (handle_request P sink req socket) (λ _. perform (shutdown socket))
              (handle_request-HandledRequest req socket) (λ _ _. (refl, refl))))

module _ (P : Platform) where
  -- Round by round a connection is accepted, and a session of its own is spawned for it.
  abbrev pub Accepts : ℕ → List (Event P) → Ending (Unit {0}) → Type 0
  Accepts zero events ending = (events ≡ []) × (ending ≡ unfinished)
  Accepts (suc n) events ending =
      (accepted : Outcome P.Socket) × (more : List (Event P)) × (events ≡ (accept, accepted) ∷ more)
      × After
          (λ socket later ending.
            (rest : List (Event P)) × (later ≡ (spawn_session socket, tt) ∷ rest)
            × Accepts n rest ending)
          accepted more ending

  abbrev pub Listens : ℕ → ℕ → List (Event P) → Ending (Unit {0}) → Type 0
  Listens n port events ending =
      (bound : Outcome (Unit {0})) × (more : List (Event P)) × (events
        ≡ (listen port, bound) ∷ more)
      × After (λ _. Accepts n) bound more ending

  module _ (sink : Sink P) where
    accept_loop-Accepts : (n : ℕ) → Ensures (Accepts n) (accept_loop P sink n)
    unfolding accept_loop
    accept_loop-Accepts zero = (refl, refl)
    accept_loop-Accepts (suc n) = λ accepted.
        let next : P.Socket → _ =
          λ socket. perform (spawn_session socket) >> accept_loop P sink n in
        Ensures-mono (lift accepted >>= next) (After _ accepted) _
          (λ more ending h. (accepted, more, refl, h))
          (lift-After _ accepted next (λ socket _.
            Ensures-mono (accept_loop P sink n) (Accepts n) _ (λ rest ending h. (rest, refl, h))
              (accept_loop-Accepts n)))

    -- The server listens at its port, and then accepts one connection after another: each gets a
    -- session of its own before the next one is accepted. A port that cannot be bound, or a
    -- connection that cannot be accepted, ends the server.
    pub start_server-Listens : (n port : ℕ) → Ensures (Listens n port) (start_server P sink n port)
    unfolding start_server
    start_server-Listens n port = λ bound.
        Ensures-mono (lift bound >> accept_loop P sink n) (After (λ _. Accepts n) bound) _
          (λ more ending h. (bound, more, refl, h))
          (lift-After (λ _. Accepts n) bound (λ _. accept_loop P sink n)
            (λ _. accept_loop-Accepts n))
