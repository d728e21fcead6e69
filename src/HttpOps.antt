-- ===== src/HttpOps.antt =====
-- include/http_ops.hpp
pub mod Asked
pub mod Fetch
pub mod Bodies
pub mod Sent
use feedback_ingest.Base.{
  Bool, true, false, Option, none, some, [], Bytes, codes, ◌==◌, bytes_eq, if◌then◌else◌,
}
use feedback_ingest.Base.{Outcome, ok, undefined, runtime_error}
use feedback_ingest.Platform.{Platform, Url}
use feedback_ingest.Effects.{
  HttpRequest, HttpResponse, resolve, connect, handshake, write_request, read_response,
  write_response, Reading, received, refused, timed_out, Task, ret, raise, ◌>>=◌, ◌>>◌, lift,
  perform,
}

-- `*parsed_url` of a result that holds an error
unfoldable pub parsed : Option Url → Outcome Url
parsed none = undefined
parsed (some url) = ok url

-- `http::request` with the fields that are not set left empty
unfoldable pub make_http_get_header : Bytes → Url → HttpRequest
unfolding bytes_eq
make_http_get_header beast_version url = record {
  method = codes "GET";
  target = if url.encoded_target == [] then codes "/" else url.encoded_target;
  host = url.encoded_host;
  user_agent = beast_version;
  body = [];
}

-- The port of the URL, or else the service that its scheme names.
abbrev pub service_of : Url → Bytes
service_of url = elim url.port [ none ↦ url.scheme | some port ↦ port ]

abbrev pub forbidden_response : HttpResponse
forbidden_response = record {
  version = 11;
  status = 403;
  server = codes "Enterpret Rest Server";
  content_type = codes "text/plain";
  body = codes "403 Forbidden\r\n";
}

abbrev pub ok_response : HttpResponse
ok_response = record {
  version = 11;
  status = 200;
  server = codes "Enterpret Rest Server";
  content_type = codes "text/plain";
  body = codes "200 OK\r\n";
}

abbrev pub not_found_response : HttpResponse
not_found_response = record {
  version = 11;
  status = 404;
  server = codes "Enterpret Rest Server";
  content_type = codes "text/plain";
  body = codes "404 not found\r\n";
}

-- `async_read(…) || timer.async_wait(…)`: the body, and whether the timer has expired after it. `||`
-- waits for a success, so that after a reading that fails it waits for the timer.
unfoldable pub read_or_wait : Reading → Bytes × Bool
read_or_wait (received body late) = (body, late)
read_or_wait (refused e) = ([], true)
read_or_wait timed_out = ([], true)

module _ (P : Platform) where
  open P use {Socket}

  -- The test after the wait: the timer of five seconds has run out.
  unfoldable pub body_in_time : Bytes × Bool → Task P Bytes
  body_in_time (body, true) = raise runtime_error
  body_in_time (body, false) = ret body

  unfoldable pub make_get_request_to_socket : Socket → HttpRequest → Task P Bytes
  unfolding body_in_time read_or_wait
  make_get_request_to_socket socket request = do
    written ← perform (write_request socket request)
    lift written
    reading ← perform (read_response socket)
    body_in_time (read_or_wait reading)

  -- The branch on the scheme.
  unfoldable pub get_over : Bool → P.Endpoints → HttpRequest → Task P Bytes
  unfolding make_get_request_to_socket
  get_over true endpoints req = do
    connected ← perform (connect endpoints false)
    socket ← lift connected
    make_get_request_to_socket socket req
  get_over false endpoints req = do
    connected ← perform (connect endpoints true)
    socket ← lift connected
    agreed ← perform (handshake socket)
    lift agreed
    make_get_request_to_socket socket req

  unfoldable pub http_get : Bytes → Task P Bytes
  unfolding parsed get_over make_http_get_header bytes_eq
  http_get url = do
    parsed_url ← lift (parsed (P.parse_uri url))
    let req = make_http_get_header P.beast_version parsed_url
    resolved ← perform (resolve parsed_url.encoded_host (service_of parsed_url))
    endpoints ← lift resolved
    get_over (parsed_url.scheme == codes "http") endpoints req

  unfoldable pub send_response : Socket → HttpResponse → Task P (Unit {0})
  send_response socket res = do written ← perform (write_response socket res); lift written

  unfoldable pub send_forbidden_response : Socket → Task P (Unit {0})
  unfolding send_response
  send_forbidden_response socket = send_response socket forbidden_response

  unfoldable pub send_ok_response : Socket → Task P (Unit {0})
  unfolding send_response
  send_ok_response socket = send_response socket ok_response

  unfoldable pub send_not_found_response : Socket → Task P (Unit {0})
  unfolding send_response
  send_not_found_response socket = send_response socket not_found_response
