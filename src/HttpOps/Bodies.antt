-- ===== src/HttpOps/Bodies.antt =====
-- The bodies that the requests of include/http_ops.hpp were answered with.
use feedback_ingest.Base.{
  ◌≡◌, refl, Bool, true, false, List, [], ◌∷◌, ◌++◌, Bytes, codes, Outcome, ok, throws, undefined,
  bytes_eq, ◌==◌,
}
use feedback_ingest.Platform.{Platform}
use feedback_ingest.Effects.{
  HttpRequest, read_response, received, refused, timed_out, Ending, returned, Event, Ensures,
}
use feedback_ingest.Effects.Traces.{Ensures-mono}
use feedback_ingest.Effects.After.{After, lift-After}
use feedback_ingest.HttpOps.{
  parsed, make_http_get_header, read_or_wait, body_in_time, make_get_request_to_socket, get_over,
  http_get,
}

module _ {P : Platform} where
  -- The bodies that were read in time, in their order.
  abbrev pub bodies : List (Event P) → List Bytes
  bodies [] = []
  bodies ((read_response socket, received body false) ∷ events) = body ∷ bodies events
  bodies (event ∷ events) = bodies events

  pub bodies-append : (xs ys : List (Event P)) → bodies (xs ++ ys) ≡ bodies xs ++ bodies ys
  bodies-append [] ys = refl
  bodies-append ((read_response socket, received body false) ∷ xs) ys =
      rw (bodies-append xs ys) refl
  bodies-append (event ∷ xs) ys = bodies-append xs ys

  -- The one body that was read is returned.
  abbrev pub Received : List (Event P) → Ending Bytes → Type 0
  Received events (returned body) = bodies events ≡ body ∷ []
  Received events _ = bodies events ≡ []

module _ (P : Platform) where
  make_get_request_to_socket-Received :
      (socket : P.Socket) (req : HttpRequest)
      → Ensures Received (make_get_request_to_socket P socket req)
  unfolding make_get_request_to_socket body_in_time read_or_wait
  make_get_request_to_socket-Received socket req = elim [
    | ok tt ↦ elim [
      | received body true ↦ refl
      | received body false ↦ refl
      | refused e ↦ refl
      | timed_out ↦ refl
    ]
    | throws e ↦ refl
    | undefined ↦ refl
  ]

  get_over-Received :
      (plain : Bool) (endpoints : P.Endpoints) (req : HttpRequest)
      → Ensures Received (get_over P plain endpoints req)
  unfolding get_over
  get_over-Received true endpoints req = elim [
    | ok socket ↦ make_get_request_to_socket-Received socket req
    | throws e ↦ refl
    | undefined ↦ refl
  ]
  get_over-Received false endpoints req = elim [
    | ok socket ↦ elim [
      | ok tt ↦ make_get_request_to_socket-Received socket req
      | throws e ↦ refl
      | undefined ↦ refl
    ]
    | throws e ↦ refl
    | undefined ↦ refl
  ]

  unparsed :
      {A : Type 0} (o : Outcome A) (events : List (Event P)) (ending : Ending Bytes)
      → After (λ a. Received) o events ending
      → Received events ending
  unparsed (ok a) events ending h = h
  unparsed (throws e) events ending (none_yet, raises) = rw (none_yet, raises) refl
  unparsed undefined events ending (none_yet, crashes) = rw (none_yet, crashes) refl

  pub http_get-Received : (url : Bytes) → Ensures Received (http_get P url)
  unfolding http_get
  http_get-Received url =
      let got = parsed (P.parse_uri url) in
      Ensures-mono (http_get P url) (After (λ u. Received) got) Received (unparsed got) (
        lift-After (λ u. Received) got _
          (λ u. elim [
            | ok endpoints ↦
                get_over-Received (u.scheme == codes "http") endpoints
                  (make_http_get_header P.beast_version u)
            | throws e ↦ refl
            | undefined ↦ refl
          ]))
