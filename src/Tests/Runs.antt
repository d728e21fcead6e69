-- ===== src/Tests/Runs.antt =====
-- Runs of the whole of src/main.cpp: the set-up on small loader files, then the coroutines.
use feedback_ingest.Base.{
  ℕ, ◌≡◌, refl, ◌⊎◌, inl, true, arith, none, some, Option, [], ◌∷◌, Bytes, codes, ok, ◌==◌,
  bytes_eq, nat_eq, if◌then◌else◌, length,
}
use feedback_ingest.Base.Int.{pos, int_eq, increment}
use feedback_ingest.Json.Tree.{Value, string, array, object, nil, cons, end, member, tree_library}
use feedback_ingest.Platform.{Platform}
use feedback_ingest.FileOps.{FileSystem, sync_read_file_lines}
use feedback_ingest.Effects.{register_route, listen, ret}
use feedback_ingest.Timer.{execute}
use feedback_ingest.Serializer.{serialize_to_json}
use feedback_ingest.Sink.{json_sink, write, create_json_file_name, create_dir_name}
use feedback_ingest.Filepp.{FileppOperationState}
use feedback_ingest.Filepp.Operation as FileppOperation
use feedback_ingest.Notifyu.{NotifyuOperationState}
use feedback_ingest.Notifyu.Operation as NotifyuOperation
use feedback_ingest.Base.Dict
use feedback_ingest.Server
use feedback_ingest.Server.{find_handler, start_server, accept_loop}
use feedback_ingest.Application.{AnyOperationState, AnyInfo, ApplicationState, start}
use feedback_ingest.Application.Tied.{IsTied}
use feedback_ingest.System.{Running, Step, moves, Reach, here, later}
use feedback_ingest.System.Duties.{Allowed}
use feedback_ingest.Main.{
  tenant_loader_path, notifyu_loader_path, filepp_loader_path, load_all, coroutines,
}
use feedback_ingest.Main.Isolation.{running, load_all-Allowed, IsOwnText, load_all-IsOwnText}
use feedback_ingest.Main.Routing.{
  starting, load_all-find_handler, running-registers, running-routed,
}
use feedback_ingest.System.Begun.{Among}
use feedback_ingest.System.Routes.{HasRoute}

-- A file of one document.
abbrev messages : Value
messages = array (cons (object (member (codes "User") (string (codes "hi")) end)) nil)

abbrev document : Value
document =
    object (
      member (codes "app_version") (string (codes "1"))
        (member (codes "conversation") messages end))

abbrev platform : Platform
platform = record {
  json = tree_library (λ _. some (array (cons document nil)));
  parse_uri = λ _. none;
  beast_version = codes "Boost.Beast/347";
  Time = ℕ;
  date = λ _. codes "2023-01-01";
  count = pos;
  year_2023 = 0;
  Endpoints = Unit {0};
  Socket = Unit {0};
}

abbrev tenants : Bytes
tenants = codes "7 a@b.c org\n"

-- One tenant, and one notifyu source for it.
abbrev notifyu_content : Bytes → Option Bytes
notifyu_content path =
    if path == tenant_loader_path
    then some tenants
    else if path == notifyu_loader_path
    then some (codes "shop /r 7\n")
    else none

abbrev notifyu_disk : FileSystem
notifyu_disk = record { State = Unit {0}; read = λ files path. notifyu_content path }

abbrev self : NotifyuOperationState
self = record {
  source_id = pos 0;
  tenant_id = pos 0;
  notifyu_info = record { listening_route = codes "/r" };
}

abbrev notifyu_set_up : ApplicationState
notifyu_set_up = record {
  tenant_registry = record {
    cur_key = pos 1;
    unused = [];
    registry = (pos 0, record { owner_email = codes "a@b.c"; organisation = codes "org" }) ∷ [];
  };
  data_source_info_registry = record {
    cur_key = pos 1;
    unused = [];
    registry =
        (
          pos 0,
          AnyInfo.notifyu (record {
            name = codes "shop";
            source_info = record { listening_route = codes "/r" };
          }),
        )
        ∷ [];
  };
  data_source_operation_state_registry = record {
    registry = record {
      cur_key = pos 1;
      unused = [];
      registry = (pos 0, AnyOperationState.notifyu self) ∷ [];
    };
    spawned = AnyOperationState.notifyu self ∷ [];
  };
  server = record { port = 4000; route_handlers = [] };
}

notifyu_run : load_all notifyu_disk tt ≡ ok notifyu_set_up
unfolding load_all bytes_eq nat_eq int_eq increment
notifyu_run = refl

one_notifyu_line : length (sync_read_file_lines notifyu_disk tt tenant_loader_path) ≡ 1
unfolding sync_read_file_lines bytes_eq nat_eq
one_notifyu_line = refl

load_all-Allowed_example :
    Allowed platform
      (IsTied notifyu_set_up.tenant_registry notifyu_set_up.data_source_info_registry)
      (register_route (codes "/r") self)
unfolding coroutines start NotifyuOperation.start
load_all-Allowed_example =
    load_all-Allowed platform notifyu_disk tt notifyu_set_up 1 _ _ _
      (omega (arith, one_notifyu_line)) notifyu_run here (moves [] _ _ _ tt refl)

-- What the program is when the source has registered its route.
abbrev routed : Running platform
unfolding coroutines start NotifyuOperation.start
routed = record {
  coroutines = ret tt ∷ start_server platform (json_sink platform) 1 4000 ∷ [];
  server = record { port = 4000; route_handlers = (codes "/r", self) ∷ [] };
}

registered : Reach platform (json_sink platform) (running platform 1 notifyu_set_up) routed
unfolding coroutines start NotifyuOperation.start Server.register_route Dict.insert
registered = later here (moves [] _ _ _ tt refl)

found_self : find_handler (codes "/r") routed.server ≡ some self
unfolding find_handler bytes_eq nat_eq routed
found_self = refl

load_all-find_handler_example :
    IsTied notifyu_set_up.tenant_registry notifyu_set_up.data_source_info_registry
      (AnyOperationState.notifyu self)
    × (codes "/r" ≡ codes "/r")
    × ((t : Running platform)
        → Reach platform (json_sink platform) routed t
        → HasRoute (codes "/r") t.server)
load_all-find_handler_example =
    load_all-find_handler platform notifyu_disk tt notifyu_set_up 1 routed (codes "/r") self
      (omega (arith, one_notifyu_line)) notifyu_run registered found_self

-- The port is open before the notifyu source takes its first turn.
abbrev listening : Running platform
listening = record {
  coroutines =
      starting platform 1 notifyu_set_up (AnyOperationState.notifyu self)
      ∷ accept_loop platform (json_sink platform) 1
      ∷ [];
  server = notifyu_set_up.server;
}

listened : Reach platform (json_sink platform) (running platform 1 notifyu_set_up) listening
unfolding coroutines start_server
listened = later here (moves (_ ∷ []) [] (listen 4000) _ (ok tt) refl)

running-registers_example :
    ((t : Running platform) × Step platform
        (json_sink platform)
        listening
        (register_route (codes "/r") self)
        t
      × (find_handler (codes "/r") t.server ≡ some self)
      × ((u : Running platform)
          → Reach platform (json_sink platform) t u
          → HasRoute (codes "/r") u.server))
    ⊎ ((u : Running platform)
        → Reach platform (json_sink platform) listening u
        → HasRoute (codes "/r") u.server)
running-registers_example =
    running-registers platform 1 notifyu_set_up self listening (inl refl) listened

running-routed_example :
    Among (starting platform 1 notifyu_set_up (AnyOperationState.notifyu self)) routed.coroutines
    ⊎ HasRoute (codes "/r") routed.server
running-routed_example = running-routed platform 1 notifyu_set_up self routed (inl refl) registered

-- One tenant, and one filepp source for it.
abbrev filepp_content : Bytes → Option Bytes
filepp_content path =
    if path == tenant_loader_path
    then some tenants
    else if path == filepp_loader_path
    then some (codes "talks in.json 1 7\n")
    else none

abbrev filepp_disk : FileSystem
filepp_disk = record { State = Unit {0}; read = λ files path. filepp_content path }

abbrev filepp_self : FileppOperationState
filepp_self = record {
  source_id = pos 0;
  tenant_id = pos 0;
  filepp_info = record { file_path = codes "in.json" };
}

abbrev filepp_set_up : ApplicationState
filepp_set_up = record notifyu_set_up {
  data_source_info_registry = record {
    cur_key = pos 1;
    unused = [];
    registry =
        (
          pos 0,
          AnyInfo.filepp (record {
            name = codes "talks";
            source_info = record { file_path = codes "in.json" };
          }),
        )
        ∷ [];
  };
  data_source_operation_state_registry = record {
    registry = record {
      cur_key = pos 1;
      unused = [];
      registry = (pos 0, AnyOperationState.filepp filepp_self) ∷ [];
    };
    spawned = AnyOperationState.filepp filepp_self ∷ [];
  };
}

filepp_run : load_all filepp_disk tt ≡ ok filepp_set_up
unfolding load_all bytes_eq nat_eq int_eq increment
filepp_run = refl

one_filepp_line : length (sync_read_file_lines filepp_disk tt tenant_loader_path) ≡ 1
unfolding sync_read_file_lines bytes_eq nat_eq
one_filepp_line = refl

-- The source stores the document of its file, at the time 5.
load_all-IsOwnText_example : IsOwnText platform filepp_set_up (pos 0) (pos 0) []
unfolding coroutines start FileppOperation.start write create_json_file_name create_dir_name
    bytes_eq nat_eq execute serialize_to_json
load_all-IsOwnText_example =
    load_all-IsOwnText platform filepp_disk tt filepp_set_up 1 _ _ (pos 5) (pos 0) (pos 0) []
      (omega (arith, one_filepp_line)) filepp_run
      (later
        (later
          (later
            (later (later (later here (moves [] _ _ _ 3 refl)) (moves [] _ _ _ tt refl))
              (moves [] _ _ _ (some (codes "{}")) refl))
            (moves [] _ _ _ true refl))
          (moves [] _ _ _ 5 refl))
        (moves [] _ _ _ tt refl))
      (moves [] _ _ _ tt refl) (omega arith) (omega arith)
