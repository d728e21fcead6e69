-- ===== src/Tests/Configurations.antt =====
-- The set-up of src/main.cpp on the loader files of a small configuration.
use feedback_ingest.Base.{
  ◌≡◌, refl, arith, some, Option, [], ◌∷◌, map, Bytes, codes, ok, ◌==◌, bytes_eq, nat_eq,
  if◌then◌else◌, AllPairs,
}
use feedback_ingest.Base.Int.{pos, int_eq}
use feedback_ingest.FileOps.{FileSystem}
use feedback_ingest.FileOps.Lines.{unlines}
use feedback_ingest.Stream.{is_space}
use feedback_ingest.Stream.Words.{IsWord}
use feedback_ingest.Tenant.Shown.{row_line}
use feedback_ingest.Application.{ApplicationState}
use feedback_ingest.Application.Shown.{IsFor}
use feedback_ingest.Main.{load_all, tenant_loader_path, discourse_loader_path, filepp_loader_path}
use feedback_ingest.Main.Rows.{discourse_row_line, filepp_row_line, notifyu_row_line}
use feedback_ingest.Main.Configured.{
  Configuration, IsSound, AreLoaderFiles, purposes, tenant_named, load_all-configured,
}

abbrev word : Bytes
word = codes "ab"

abbrev other : Bytes
other = codes "cd"

word-IsWord : IsWord word
unfolding is_space nat_eq
word-IsWord = ((λ e. cc), ((refl, (refl, tt))))

other-IsWord : IsWord other
unfolding is_space nat_eq
other-IsWord = ((λ e. cc), ((refl, (refl, tt))))

-- Two tenants; both take the forum, the first one the file, and the second one the reviews.
abbrev configuration : Configuration
configuration = record {
  tenants =
      (pos 7, record { owner_email = word; organisation = word })
      ∷ (pos 9, record { owner_email = other; organisation = other })
      ∷ [];
  discourse_rows =
      (record { name = word; source_info = record { topic_id = pos 12 } }, pos 9 ∷ pos 7 ∷ []) ∷ [];
  filepp_rows =
      (record { name = word; source_info = record { file_path = other } }, pos 7 ∷ []) ∷ [];
  notifyu_rows =
      (record { name = other; source_info = record { listening_route = word } }, pos 9 ∷ []) ∷ [];
}

sound : IsSound configuration
unfolding int_eq nat_eq
sound = record {
  tenants =
      ((omega arith, word-IsWord, word-IsWord), ((omega arith, other-IsWord, other-IsWord), tt));
  discourse_rows = ((word-IsWord, omega arith, omega arith, (omega arith, (omega arith, tt))), tt);
  filepp_rows = ((word-IsWord, other-IsWord, omega arith, (omega arith, tt)), tt);
  notifyu_rows = ((other-IsWord, word-IsWord, (omega arith, tt), refl), tt);
  known_discourse = (((_, refl), ((_, refl), tt)), tt);
  known_filepp = (((_, refl), tt), tt);
  known_notifyu = (((_, refl), tt), tt);
  tenant_room = omega arith;
  source_room = omega arith;
  operation_room = omega arith;
}

abbrev content : Bytes → Option Bytes
content path =
    if path == tenant_loader_path
    then some (unlines (map row_line configuration.tenants))
    else if path == discourse_loader_path
    then some (unlines (map discourse_row_line configuration.discourse_rows))
    else if path == filepp_loader_path
    then some (unlines (map filepp_row_line configuration.filepp_rows))
    else some (unlines (map notifyu_row_line configuration.notifyu_rows))

abbrev disk : FileSystem
disk = record { State = Unit {0}; read = λ files path. content path }

shown : AreLoaderFiles disk tt configuration
unfolding bytes_eq nat_eq
shown = record { tenants = refl; discourse_rows = refl; filepp_rows = refl; notifyu_rows = refl }

load_all-configured_example :
    (state : ApplicationState) × (load_all disk tt ≡ ok state)
    × AllPairs
        (IsFor state.tenant_registry state.data_source_info_registry)
        state.data_source_operation_state_registry.spawned
        (purposes (tenant_named configuration) configuration)
load_all-configured_example = load_all-configured disk tt configuration sound shown
