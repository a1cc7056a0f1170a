-- ===== src/Examples/Storage.antt =====
-- The theorems about files and release packages, at a target with an old content, and at an archive
-- of one file and one link. A directory's contents are a number.
use mathlib.Core.List.{append_assoc, append-nil}
use palworld_server_service.Common.{
  pos, ℕ, ◌+◌, ◌≡◌, refl, true, false, Option, none, some, List, [], ◌∷◌, ◌++◌, All,
}
use palworld_server_service.Common.Text.{Text, codes, text_eq, starts_with}
use palworld_server_service.Common.Outcome.{ok}
use palworld_server_service.Files.Paths.{lookup}
use palworld_server_service.Files.Atomic.{Disk, Host, is_backup, atomic_write_file}
use palworld_server_service.Files.Refinement.{IsFresh, CellWrite, OldOrNew, content_at, new_entry}
use palworld_server_service.Files.Completion.{returns}
use palworld_server_service.Files.Writes.{
  starting, atomic_write_file-CellWrite, crash_safe, write_completes,
}
use palworld_server_service.Files.Folders.{Folders, Moves}
use palworld_server_service.Files.Staging.{StagingHost}
use palworld_server_service.Files.Commits.{CanRollBack, open_context}
use palworld_server_service.Deploy.Members.{Parts}
use palworld_server_service.Deploy.Package.{file, Hasher, Archive, stage_release_package}
use palworld_server_service.Deploy.Contained.{walk}
use palworld_server_service.Deploy.Swap.{SwapHost, moves_whole, execute_atomic_swap}
use palworld_server_service.Deploy.Live.{CanSwap, Installed, execute_atomic_swap-Installed}
use palworld_server_service.Deploy.Verified.{IsIncremental}
use palworld_server_service.Deploy.Staged.{StagedOrKept, stage_release_package-StagedOrKept}

abbrev ini : Text
ini = codes "Pal.ini"

abbrev host : Host
host = record {
  tmp_name = codes ".tmp_pal_io_x.tmp";
  timestamp_str = codes "20250101";
  now = 100;
  mkdir_works = true;
  stat_works = λ p. true;
  create_works = true;
  write_stops = none;
  fsync_works = true;
  chmod_works = true;
  copy_stops = none;
  glob_works = true;
  unlink_works = λ p. true;
  replace_works = true;
}

abbrev disk : Disk
disk = (ini, record { content = 1 ∷ 2 ∷ []; mode = 33188; mtime = 50 }) ∷ []

fresh : IsFresh host ini
unfolding text_eq is_backup starts_with
fresh = record { is_not_target = refl; target_is_not = refl; is_not_backup = refl }

atomic_write_file-CellWrite_example :
    CellWrite
      (7 ∷ [])
      (content_at ini disk)
      (atomic_write_file host ini (7 ∷ []) (pos 5) true none (starting disk)).0
      (content_at ini
        (atomic_write_file host ini (7 ∷ []) (pos 5) true none (starting disk)).1.disk)
atomic_write_file-CellWrite_example =
    atomic_write_file-CellWrite host ini (7 ∷ []) (pos 5) true none disk fresh

crash_safe_example : All (OldOrNew (lookup ini disk) (7 ∷ []) ini) (
    (atomic_write_file host ini (7 ∷ []) (pos 5) true none (starting disk)).1.disk
    ∷ (atomic_write_file host ini (7 ∷ []) (pos 5) true none (starting disk)).1.seen)
crash_safe_example = crash_safe host ini (7 ∷ []) (pos 5) true none disk fresh

write_completes_example :
    (returns (atomic_write_file host ini (7 ∷ []) (pos 5) true (some 420) (starting disk)).0 ≡ true)
    × ((lookup ini
            (atomic_write_file host ini (7 ∷ []) (pos 5) true (some 420) (starting disk)).1.disk
          ≡ some (new_entry host ini (lookup ini disk) (7 ∷ []) 420))
        × (lookup host.tmp_name
              (atomic_write_file host ini (7 ∷ []) (pos 5) true (some 420) (starting disk)).1.disk
            ≡ none))
write_completes_example =
    write_completes host ini (7 ∷ []) (pos 5) true (some 420) disk fresh (record {
      mkdir_works = refl;
      create_works = refl;
      write_works = refl;
      fsync_works = refl;
      replace_works = refl;
    })

abbrev moves : Moves ℕ
moves = record { replace_works = λ p q. true; rmtree_leaves = λ p. none }

abbrev swap_host : SwapHost ℕ
swap_host = record {
  moves = moves;
  is_dir = λ p. true;
  mkdir_works = true;
  backup_mkdir_works = true;
  shutil_move = λ p q. moves_whole;
  timestamp_str = codes "20250101";
}

abbrev installed : Folders ℕ
installed = (codes "/opt/new", 2) ∷ (codes "/opt/app", 1) ∷ []

can_swap :
    CanSwap ℕ swap_host (codes "/opt/new") (codes "/opt/app") (codes "app") (some (codes "/backup"))
unfolding text_eq
can_swap = record { tombstone_apart = refl; rolls_back = refl; archives = refl }

execute_atomic_swap-Installed_example : Installed ℕ swap_host (codes "/opt/app") 2 1 (
    execute_atomic_swap ℕ swap_host
      (codes "/opt/new")
      (codes "/opt/app")
      (codes "app")
      (some (codes "/backup"))
      installed)
unfolding lookup text_eq
execute_atomic_swap-Installed_example =
    execute_atomic_swap-Installed ℕ swap_host (codes "/opt/new") (codes "/opt/app") (codes "app")
      (some (codes "/backup")) 2 1 installed refl refl can_swap

abbrev adder : Hasher
adder = record { State = List ℕ; start = []; update = λ s block. s ++ block; hexdigest = λ s. s }

adder-IsIncremental : IsIncremental adder
adder-IsIncremental = record { whole = λ s a b. append_assoc s a b; nothing = append-nil }

abbrev staging_host : StagingHost ℕ
staging_host = record {
  moves = moves;
  mkdir_works = true;
  mkdtemp = some (codes "/opt/.tmp_deploy_x");
  timestamp_str = codes "20250101";
}

abbrev resolve : Parts → Option Parts
resolve path = some (walk [] path)

-- A directory is the number of the files in it.
abbrev archive : Archive ℕ 0 resolve
archive = record {
  getmembers = ok (
      record { name = codes "app/main.py"; is_link = false; linkname = [] }
      ∷ record { name = codes "app/latest"; is_link = true; linkname = codes "main.py" }
      ∷ []);
  extractall = λ files. (ok tt, files + 2);
}

abbrev place : Text → Parts
place stage = codes "opt" ∷ codes ".tmp_deploy_x" ∷ []

can_roll_back : CanRollBack ℕ staging_host (codes "/opt/.tmp_deploy_x") (codes "/opt/app")
unfolding text_eq
can_roll_back = record {
  stage_apart = refl;
  target_apart = refl;
  tombstone_apart = refl;
  rolls_back = refl;
}

stage_release_package-StagedOrKept_example :
    StagedOrKept ℕ 0 resolve staging_host archive place
      (codes "/opt/.tmp_deploy_x")
      (codes "/opt/app")
      installed
      (stage_release_package ℕ 0 resolve staging_host
        (file (1 ∷ []))
        archive
        place
        (record (open_context ℕ 0 staging_host
          (codes "/opt/.tmp_deploy_x")
          (codes "/opt/app")
          installed) { stage_dir = none }))
unfolding text_eq
stage_release_package-StagedOrKept_example =
    stage_release_package-StagedOrKept ℕ 0 resolve staging_host archive place
      (codes "/opt/.tmp_deploy_x") (codes "/opt/app") installed (1 ∷ []) refl refl can_roll_back
      (λ path. refl) refl
