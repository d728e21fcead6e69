-- ===== src/HttpOps/Fetch.antt =====
-- What has happened when `http_get` of include/http_ops.hpp returns a body.
use feedback_ingest.Base.{
  ◌≡◌, refl, ap, Bool, true, false, Option, none, some, runtime_error, List, [], ◌∷◌, ◌++◌, Bytes,
  codes, Outcome, ok, throws, undefined, ◌==◌, bytes_eq,
}
use feedback_ingest.Platform.{Platform, Url}
use feedback_ingest.Effects.{
  HttpRequest, Command, Answer, resolve, connect, handshake, write_request, read_response, Reading,
  received, refused, timed_out, Ending, returned, raised, crashed, unfinished, Event, Ensures,
}
use feedback_ingest.Effects.Traces.{Ensures-mono}
use feedback_ingest.HttpOps.Asked.{
  NamesService, Asks, service_of-NamesService, make_http_get_header-Asks,
}
use feedback_ingest.HttpOps.{
  parsed, make_http_get_header, service_of, read_or_wait, body_in_time, make_get_request_to_socket,
  get_over, http_get,
}

module _ (P : Platform) where
  open P use {Endpoints, Socket}

  -- The request was written, and the response was there before the timer of five seconds.
  abbrev pub exchange : Socket → HttpRequest → Bytes → List (Event P)
  exchange socket req body =
      (write_request socket req, ok tt) ∷ (read_response socket, received body false) ∷ []

  -- The connection for a scheme, which is encrypted unless the scheme is "http".
  abbrev pub connection : Bool → Endpoints → Socket → List (Event P)
  connection true endpoints socket = (connect endpoints false, ok socket) ∷ []
  connection false endpoints socket =
      (connect endpoints true, ok socket) ∷ (handshake socket, ok tt) ∷ []

  abbrev Exchanged : Socket → HttpRequest → List (Event P) → Ending Bytes → Type 0
  Exchanged socket req events (returned body) = events ≡ exchange socket req body
  Exchanged socket req events _ = Unit

  abbrev Connected : Bool → Endpoints → HttpRequest → List (Event P) → Ending Bytes → Type 0
  Connected plain endpoints req events (returned body) =
      (socket : Socket) × (events ≡ connection plain endpoints socket ++ exchange socket req body)
  Connected plain endpoints req events _ = Unit

  abbrev pub Fetched : Url → List (Event P) → Ending Bytes → Type 0
  Fetched url events (returned body) =
      (service : Bytes) × NamesService url service
      × (req : HttpRequest) × Asks P.beast_version url req
      × (endpoints : Endpoints) × (socket : Socket) × (events
          ≡ (resolve url.encoded_host service, ok endpoints)
            ∷ (connection (url.scheme == codes "http") endpoints socket
                ++ exchange socket req body))
  Fetched url events _ = Unit

  make_get_request_to_socket-Exchanged :
      (socket : Socket) (req : HttpRequest)
      → Ensures (Exchanged socket req) (make_get_request_to_socket P socket req)
  unfolding make_get_request_to_socket body_in_time read_or_wait
  make_get_request_to_socket-Exchanged socket req = elim [
    | ok tt ↦ elim [
      | received body true ↦ tt
      | received body false ↦ refl
      | refused e ↦ tt
      | timed_out ↦ tt
    ]
    | throws e ↦ tt
    | undefined ↦ tt
  ]

  connected :
      (plain : Bool) (endpoints : Endpoints) (socket : Socket) (req : HttpRequest)
      (events : List (Event P)) (ending : Ending Bytes)
      → Exchanged socket req events ending
      → Connected plain endpoints req (connection plain endpoints socket ++ events) ending
  connected plain endpoints socket req events (returned body) h =
      (socket, ap (λ es. connection plain endpoints socket ++ es) h)
  connected plain endpoints socket req events (raised e) h = tt
  connected plain endpoints socket req events crashed h = tt
  connected plain endpoints socket req events unfinished h = tt

  get_over-Connected :
      (plain : Bool) (endpoints : Endpoints) (req : HttpRequest)
      → Ensures (Connected plain endpoints req) (get_over P plain endpoints req)
  unfolding get_over
  get_over-Connected true endpoints req = elim [
    | ok socket ↦
        Ensures-mono (make_get_request_to_socket P socket req) (Exchanged socket req)
          (λ events. Connected true endpoints req (connection true endpoints socket ++ events))
          (connected true endpoints socket req) (make_get_request_to_socket-Exchanged socket req)
    | throws e ↦ tt
    | undefined ↦ tt
  ]
  get_over-Connected false endpoints req = elim [
    | ok socket ↦ elim [
      | ok tt ↦
          Ensures-mono (make_get_request_to_socket P socket req) (Exchanged socket req)
            (λ events. Connected false endpoints req (connection false endpoints socket ++ events))
            (connected false endpoints socket req) (make_get_request_to_socket-Exchanged socket req)
      | throws e ↦ tt
      | undefined ↦ tt
    ]
    | throws e ↦ tt
    | undefined ↦ tt
  ]

  fetched :
      (url : Url) (endpoints : Endpoints) (events : List (Event P)) (ending : Ending Bytes)
      → Connected
          (url.scheme == codes "http")
          endpoints
          (make_http_get_header P.beast_version url)
          events
          ending
      → Fetched url ((resolve url.encoded_host (service_of url), ok endpoints) ∷ events) ending
  fetched url endpoints events (returned body) (socket, h) = (
    service_of url,
    service_of-NamesService url,
    make_http_get_header P.beast_version url,
    make_http_get_header-Asks P.beast_version url,
    endpoints,
    socket,
    ap (λ es. (resolve url.encoded_host (service_of url), ok endpoints) ∷ es) h,
  )
  fetched url endpoints events (raised e) h = tt
  fetched url endpoints events crashed h = tt
  fetched url endpoints events unfinished h = tt

  -- For a URL that parses, whatever the network answers: if `http_get` returns a body, the host was
  -- resolved for the URL's port, or for its scheme where it has none; the connection was encrypted
  -- unless the scheme is "http"; one request was written, a GET of the URL's target, or of "/" where
  -- that is empty, with the URL's host; and its response came in time.
  pub http_get-Fetched :
      (url : Bytes) (u : Url) → P.parse_uri url ≡ some u → Ensures (Fetched u) (http_get P url)
  unfolding http_get parsed
  http_get-Fetched url u e = rw e (elim [
    | ok endpoints ↦
        Ensures-mono
          (get_over P (u.scheme == codes "http") endpoints (make_http_get_header P.beast_version u))
          (Connected (u.scheme == codes "http") endpoints (make_http_get_header P.beast_version u))
          (λ events. Fetched u ((resolve u.encoded_host (service_of u), ok endpoints) ∷ events))
          (fetched u endpoints)
          (get_over-Connected (u.scheme == codes "http") endpoints
            (make_http_get_header P.beast_version u))
    | throws x ↦ tt
    | undefined ↦ tt
  ])

module _ (P : Platform) where
  open P use {Endpoints, Socket}

  abbrev failure {ℓ} : {A : Type ℓ} → Outcome A → Option (Ending Bytes)
  failure (ok a) = none
  failure (throws e) = some (raised e)
  failure undefined = some crashed

  abbrev response_ending : Reading → Option (Ending Bytes)
  response_ending (received body false) = some (returned body)
  response_ending _ = some (raised runtime_error)

  -- How the answer to one command of a client ends what it is part of, if it does.
  abbrev pub client_ending : (c : Command P) → Answer P c → Option (Ending Bytes)
  client_ending (resolve host service) answer = failure answer
  client_ending (connect endpoints encrypted) answer = failure answer
  client_ending (handshake socket) answer = failure answer
  client_ending (write_request socket req) answer = failure answer
  client_ending (read_response socket) answer = response_ending answer
  client_ending _ answer = none

  abbrev or_later : Option (Ending Bytes) → Option (Ending Bytes) → Option (Ending Bytes)
  or_later none later = later
  or_later (some ending) later = some ending

  -- The first such ending.
  abbrev pub first_ending : List (Event P) → Option (Ending Bytes)
  first_ending [] = none
  first_ending ((c, answer) ∷ events) = or_later (client_ending c answer) (first_ending events)

  abbrev EndsFirst : List (Event P) → Ending Bytes → Type 0
  EndsFirst events ending = first_ending events ≡ some ending

  make_get_request_to_socket-EndsFirst :
      (socket : Socket) (req : HttpRequest)
      → Ensures EndsFirst (make_get_request_to_socket P socket req)
  unfolding make_get_request_to_socket body_in_time read_or_wait
  make_get_request_to_socket-EndsFirst socket req = elim [
    | ok tt ↦ elim [
      | received body true ↦ refl
      | received body false ↦ refl
      | refused e ↦ refl
      | timed_out ↦ refl
    ]
    | throws e ↦ refl
    | undefined ↦ refl
  ]

  get_over-EndsFirst :
      (plain : Bool) (endpoints : Endpoints) (req : HttpRequest)
      → Ensures EndsFirst (get_over P plain endpoints req)
  unfolding get_over
  get_over-EndsFirst true endpoints req = elim [
    | ok socket ↦ make_get_request_to_socket-EndsFirst socket req
    | throws e ↦ refl
    | undefined ↦ refl
  ]
  get_over-EndsFirst false endpoints req = elim [
    | ok socket ↦ elim [
      | ok tt ↦ make_get_request_to_socket-EndsFirst socket req
      | throws e ↦ refl
      | undefined ↦ refl
    ]
    | throws e ↦ refl
    | undefined ↦ refl
  ]

  -- For a URL that parses, where each command is answered, `http_get` ends by the first answer that
  -- decides: with the exception of the first command before the reading that fails, with
  -- `runtime_error` for a reading that fails or is late, and with the body of a response in time.
  pub http_get-first_ending :
      (url : Bytes) (u : Url)
      → P.parse_uri url ≡ some u
      → Ensures (λ events ending. first_ending events ≡ some ending) (http_get P url)
  unfolding http_get parsed
  http_get-first_ending url u e = rw e (elim [
    | ok endpoints ↦
        get_over-EndsFirst (u.scheme == codes "http") endpoints
          (make_http_get_header P.beast_version u)
    | throws x ↦ refl
    | undefined ↦ refl
  ])
