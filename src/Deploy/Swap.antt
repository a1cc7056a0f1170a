-- ===== src/Deploy/Swap.antt =====
-- `execute_atomic_swap` (app/engine/deployer.py): a staged directory takes the place of the live one,
-- which is archived or removed.
use palworld_server_service.Common.{
  Bool, true, false, ◌||◌, not, Option, none, some, ◌++◌, if◌then◌else◌,
}
use palworld_server_service.Common.Text.{Text, codes, text_eq}
use palworld_server_service.Common.Outcome.{Outcome, ok, err}
use palworld_server_service.Files.Paths.{lookup, put, moved, exists}
use palworld_server_service.Files.Folders.{
  Folders, Moves, replace_folder, swap_directories_with_rollback, rmtree, tombstone_of,
}

-- How shutil.move ends: all is moved, or it fails and some of it stands at the destination.
pub data MoveEnd (A : Type 0) : Type 0 where
  moves_whole : MoveEnd A
  fails_clean : MoveEnd A
  fails_partly : A → MoveEnd A

pub record SwapHost (A : Type 0) : Type 0 where
  pub moves : Moves A
  pub is_dir : Text → Bool
  pub mkdir_works : Bool
  pub backup_mkdir_works : Bool
  pub shutil_move : Text → Text → MoveEnd A
  pub timestamp_str : Text

module _ (A : Type 0) (h : SwapHost A) where
  abbrev pub move_from : MoveEnd A → Text → Text → Option A → Folders A → Bool × Folders A
  move_from end src dst none d = (false, d)
  move_from moves_whole src dst (some a) d = (true, moved src dst a d)
  move_from fails_clean src dst (some a) d = (false, d)
  move_from (fails_partly part) src dst (some a) d = (false, put dst part d)

  abbrev pub moved_by_copy : Text → Text → Folders A → Bool × Folders A
  moved_by_copy src dst d = move_from (h.shutil_move src dst) src dst (lookup src d) d

  -- os.replace, and shutil.move where it fails
  abbrev pub fall_back : Text → Text → Outcome (Unit {0}) × Folders A → Bool × Folders A
  fall_back src dst (ok u, d) = (true, d)
  fall_back src dst (err e, d) = moved_by_copy src dst d

  unfoldable pub perform_initial_target_move : Text → Text → Folders A → Bool × Folders A
  perform_initial_target_move staged_dir target_dir d =
      fall_back staged_dir target_dir (replace_folder A h.moves staged_dir target_dir d)

  abbrev pub archive_dest : Text → Text → Text
  archive_dest target_name backup_dir =
      if h.is_dir backup_dir
      then backup_dir ++ (codes "/" ++ (target_name ++ (codes ".backup." ++ h.timestamp_str)))
      else backup_dir

  abbrev pub buried : Text → Bool × Folders A → Folders A
  buried tombstone (true, d) = d
  buried tombstone (false, d) = (rmtree A h.moves tombstone d).1

  unfoldable pub archive_or_cleanup_tombstone : Text → Text → Option Text → Folders A → Folders A
  archive_or_cleanup_tombstone tombstone target_name none d = (rmtree A h.moves tombstone d).1
  archive_or_cleanup_tombstone tombstone target_name (some backup_dir) d =
      let dest = archive_dest target_name backup_dir in
      if h.backup_mkdir_works
      then buried tombstone (fall_back tombstone dest (replace_folder A h.moves tombstone dest d))
      else (rmtree A h.moves tombstone d).1

  abbrev pub archived :
      Text → Text → Option Text → Outcome (Unit {0}) × Folders A → Bool × Folders A
  archived tombstone target_name backup_dir (ok u, d) =
      (true, archive_or_cleanup_tombstone tombstone target_name backup_dir d)
  archived tombstone target_name backup_dir (err e, d) = (false, d)

  -- The target is given by its path and by its last component.
  unfoldable pub execute_atomic_swap :
      Text → Text → Text → Option Text → Folders A → Bool × Folders A
  execute_atomic_swap staged_dir target_dir target_name backup_dir d =
      let tombstone = tombstone_of target_dir h.timestamp_str in
      if not (exists staged_dir d) || not (h.is_dir staged_dir)
      then (false, d)
      else if text_eq staged_dir target_dir
      then (false, d)
      else if not h.mkdir_works
      then (false, d)
      else if not (exists target_dir d)
      then perform_initial_target_move staged_dir target_dir d
      else archived tombstone target_name backup_dir
          (swap_directories_with_rollback A h.moves staged_dir target_dir tombstone d)
