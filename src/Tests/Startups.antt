-- ===== src/Tests/Startups.antt =====
-- A run of src/main.cpp up to `ctx.run()` on small loader files.
use feedback_ingest.Base.{
  ◌≡◌, refl, arith, none, some, Option, [], ◌∷◌, Bytes, codes, ok, ◌==◌, bytes_eq, nat_eq,
  if◌then◌else◌, length,
}
use feedback_ingest.Base.Int.{pos, int_eq, increment}
use feedback_ingest.FileOps.{FileSystem, sync_read_file_lines}
use feedback_ingest.Application.{AnyOperationState, AnyInfo, ApplicationState}
use feedback_ingest.Application.Tied.{AllTied}
use feedback_ingest.Main.{tenant_loader_path, discourse_loader_path, load_all}
use feedback_ingest.Main.Startup.{load_all-AllTied}

-- One tenant with the number 7, and one discourse source for it; the other files are missing.
abbrev content : Bytes → Option Bytes
content path =
    if path == tenant_loader_path
    then some (codes "7 a@b.c org\n")
    else if path == discourse_loader_path
    then some (codes "\nforum 12 1 7\n")
    else none

abbrev disk : FileSystem
disk = record { State = Unit {0}; read = λ files path. content path }

abbrev set_up : ApplicationState
set_up = record {
  tenant_registry = record {
    cur_key = pos 1;
    unused = [];
    registry = (pos 0, record { owner_email = codes "a@b.c"; organisation = codes "org" }) ∷ [];
  };
  data_source_info_registry = record {
    cur_key = pos 1;
    unused = [];
    registry =
        (
          pos 0,
          AnyInfo.discourse
              (record { name = codes "forum"; source_info = record { topic_id = pos 12 } }),
        )
        ∷ [];
  };
  data_source_operation_state_registry = record {
    registry = record {
      cur_key = pos 1;
      unused = [];
      registry =
          (
            pos 0,
            AnyOperationState.discourse (record {
              source_id = pos 0;
              tenant_id = pos 0;
              discourse_info = record { topic_id = pos 12 };
            }),
          )
          ∷ [];
    };
    spawned =
        AnyOperationState.discourse (record {
          source_id = pos 0;
          tenant_id = pos 0;
          discourse_info = record { topic_id = pos 12 };
        })
        ∷ [];
  };
  server = record { port = 4000; route_handlers = [] };
}

load_all_run : load_all disk tt ≡ ok set_up
unfolding load_all bytes_eq nat_eq int_eq increment
load_all_run = refl

one_line : length (sync_read_file_lines disk tt tenant_loader_path) ≡ 1
unfolding sync_read_file_lines bytes_eq nat_eq
one_line = refl

load_all-AllTied_example : AllTied set_up
load_all-AllTied_example = load_all-AllTied disk tt set_up (omega (arith, one_line)) load_all_run
