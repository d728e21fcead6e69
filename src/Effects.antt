-- ===== src/Effects.antt =====
-- Coroutines (include/coro.hpp). A coroutine is a tree of the commands that it gives to the system:
-- the operating system, the network, the log, and the routes that all coroutines share. Between two
-- commands other coroutines may run, so the answer to a command is free.

pub mod Contract
pub mod Traces
pub mod After
pub mod Reported
pub mod Runs
use feedback_ingest.Base.{ℕ, Bool, Option, none, some, List, [], ◌∷◌, ◌++◌, Bytes}
use feedback_ingest.Base.{Outcome, ok, throws, undefined, Exception}
use feedback_ingest.Base.Int.{ℤ}
use feedback_ingest.Platform.{Platform}
use feedback_ingest.Notifyu.{NotifyuOperationState}

-- `boost::beast::http::request`, as far as the program sets or reads it
pub record HttpRequest : Type 0 where
  pub method : Bytes
  pub target : Bytes
  pub host : Bytes
  pub user_agent : Bytes
  pub body : Bytes

-- `boost::beast::http::response`
pub record HttpResponse : Type 0 where
  pub version : ℕ
  pub status : ℕ
  pub server : Bytes
  pub content_type : Bytes
  pub body : Bytes

-- What is written to the log: a text, or a text with a number or an exception.
pub data LogLine : Type 0 where
  info error : Bytes → LogLine
  error_id : Bytes → ℤ → LogLine
  error_what : Bytes → Exception → LogLine
  info_ids : Bytes → ℤ → ℤ → LogLine

-- How a reading beside a timer comes out: it is done, and the flag says whether the timer has
-- expired when it is asked after that; it fails; or the timer is first, and it is given up.
pub data Reading : Type 0 where
  received : Bytes → Bool → Reading
  refused : Exception → Reading
  timed_out : Reading

module _ (P : Platform) where
  open P use {Time, Endpoints, Socket}

  pub data Command : Type 0 where
    -- `system_clock::now()`, and the wait of a timer that expires after some seconds
    now : Command
    sleep : ℕ → Command
    log : LogLine → Command
    -- `std::ifstream`, the opening of a `std::ofstream`, the writing to it, whole or, where the
    -- printing fails, of the part before the failure, and the directories
    read_file : Bytes → Command
    open_output : Bytes → Command
    write_output : Bytes → Bytes → Command
    write_part : Bytes → Command
    create_directories : Bytes → Command
    -- the client side of the network; the flag says that the connection is to be encrypted
    resolve : Bytes → Bytes → Command
    connect : Endpoints → Bool → Command
    handshake : Socket → Command
    write_request : Socket → HttpRequest → Command
    read_response : Socket → Command
    -- the server side
    listen : ℕ → Command
    accept : Command
    spawn_session : Socket → Command
    read_request : Socket → Command
    write_response : Socket → HttpResponse → Command
    shutdown : Socket → Command
    -- the routes of the server
    register_route : Bytes → NotifyuOperationState → Command
    find_route : Bytes → Command

  -- What the system answers. A failure of the network is the exception `system_error`, here an
  -- `Outcome`. `read_response` is the reading beside its timer of five seconds.
  abbrev pub Answer : Command → Type 0
  Answer now = Time
  Answer (read_file path) = Option Bytes
  Answer (create_directories path) = Bool
  Answer (resolve host service) = Outcome Endpoints
  Answer (connect endpoints encrypted) = Outcome Socket
  Answer (handshake socket) = Outcome (Unit {0})
  Answer (write_request socket request) = Outcome (Unit {0})
  Answer (read_response socket) = Reading
  Answer (listen port) = Outcome (Unit {0})
  Answer accept = Outcome Socket
  Answer (read_request socket) = Outcome HttpRequest
  Answer (write_response socket response) = Outcome (Unit {0})
  Answer (find_route target) = Option NotifyuOperationState
  Answer _ = Unit {0}

  -- `rd::awaitable<A>`. `paused` ends what is observed of a coroutine that goes on for ever.
  pub data Task (A : Type 0) : Type 0 where
    ret : A → Task A
    raise : Exception → Task A
    crash : Task A
    paused : Task A
    step : (c : Command) → (Answer c → Task A) → Task A

infixl 5 ◌>>=◌ ◌>>◌
abbrev pub ◌>>=◌ : {P : Platform} {A B : Type 0} → Task P A → (A → Task P B) → Task P B
ret a >>= f = f a
raise e >>= f = raise e
crash >>= f = crash
paused >>= f = paused
step c k >>= f = step c (λ r. k r >>= f)

abbrev pub ◌>>◌ : {P : Platform} {A B : Type 0} → Task P A → Task P B → Task P B
m >> n = m >>= λ _. n

-- A computation with no command.
abbrev pub lift : {P : Platform} {A : Type 0} → Outcome A → Task P A
lift (ok a) = ret a
lift (throws e) = raise e
lift undefined = crash

-- `try { … } catch (std::exception &e) { … }`
abbrev pub try_catch : {P : Platform} {A : Type 0} → Task P A → (Exception → Task P A) → Task P A
try_catch (ret a) handler = ret a
try_catch (raise e) handler = handler e
try_catch crash handler = crash
try_catch paused handler = paused
try_catch (step c k) handler = step c (λ r. try_catch (k r) handler)

abbrev pub perform : {P : Platform} (c : Command P) → Task P (Answer P c)
perform c = step c (λ r. ret r)

-- How a coroutine ends, as far as it is observed.
pub data Ending (A : Type 0) : Type 0 where
  returned : A → Ending A
  raised : Exception → Ending A
  crashed : Ending A
  unfinished : Ending A

-- A command with its answer.
abbrev pub Event : Platform → Type 0
Event P = (c : Command P) × Answer P c

-- Whatever the system answers, the events and the ending are as `Q` says.
abbrev pub Ensures {ℓ} :
    {P : Platform} {A : Type 0} → (List (Event P) → Ending A → Type ℓ) → Task P A → Type ℓ
Ensures Q (ret a) = Q [] (returned a)
Ensures Q (raise e) = Q [] (raised e)
Ensures Q crash = Q [] crashed
Ensures Q paused = Q [] unfinished
Ensures {P = P} Q (step c k) = (r : Answer P c) → Ensures (λ events. Q ((c, r) ∷ events)) (k r)
