-- ===== src/Files/Staging.antt =====
-- `AtomicStagingContext` (app/core/atomic_io.py): a directory is built under a temporary name and
-- takes the target's place when the block ends.
use palworld_server_service.Common.{
  Bool, true, false, ◌&&◌, ◌||◌, not, Option, none, some, if◌then◌else◌,
}
use palworld_server_service.Common.Text.{Text}
use palworld_server_service.Common.Outcome.{
  Outcome, ok, err, os_error, runtime_error, Action, ◌>>=◌, ◌>>◌,
}
use palworld_server_service.Files.Paths.{put, exists}
use palworld_server_service.Files.Folders.{
  Folders, Moves, replace_folder, swap_directories_with_rollback, rmtree, tombstone_of,
}

-- mkdir, mkdtemp and the clock beside the moves
pub record StagingHost (A : Type 0) : Type 0 where
  pub moves : Moves A
  pub mkdir_works : Bool
  pub mkdtemp : Option Text
  pub timestamp_str : Text

module _ (A : Type 0) (empty : A) where
  pub record Context : Type 0 where
    pub target_dir : Text
    pub atomic_rename : Bool
    pub stage_dir : Option Text
    pub committed : Bool
    pub folders : Folders A

  abbrev pub on_folders : {B : Type 0} → Action (Folders A) B → Action Context B
  on_folders f c = let (r, d) = f c.folders in (r, record c { folders = d })

  abbrev allocated : Option Text → Action Context Text
  allocated none c = (err os_error, c)
  allocated (some stage) c = (
    ok stage,
    record c { stage_dir = some stage; committed = false; folders = put stage empty c.folders },
  )

  -- The parent that is made for a rename is none of the directories kept here.
  unfoldable pub enter : StagingHost A → Action Context Text
  enter h c =
      if not h.mkdir_works && not (not c.atomic_rename && exists c.target_dir c.folders)
      then (err os_error, c)
      else if c.atomic_rename || exists c.target_dir c.folders
      then allocated h.mkdtemp c
      else allocated h.mkdtemp (record c { folders = put c.target_dir empty c.folders })

  abbrev pub mark_committed : Action Context (Unit {0})
  mark_committed c = (ok tt, record c { committed = true })

  -- Where the swap is made, the tombstone is removed, if that works.
  abbrev pub buried :
      StagingHost A → Text → Outcome (Unit {0}) × Folders A → Outcome (Unit {0}) × Folders A
  buried h tombstone (ok u, d) = (ok tt, (rmtree A h.moves tombstone d).1)
  buried h tombstone (err e, d) = (err e, d)

  unfoldable pub swap_in : StagingHost A → Text → Text → Action (Folders A) (Unit {0})
  swap_in h stage target d =
      if exists target d
      then buried h (tombstone_of target h.timestamp_str) (
          swap_directories_with_rollback A h.moves stage target
            (tombstone_of target h.timestamp_str) d)
      else replace_folder A h.moves stage target d

  abbrev pub commit_stage : StagingHost A → Option Text → Action Context (Unit {0})
  commit_stage h none c = (err runtime_error, c)
  commit_stage h (some stage) c =
      if not (exists stage c.folders)
      then (err runtime_error, c)
      else if not c.atomic_rename
      then mark_committed c
      else (on_folders (swap_in h stage c.target_dir) >> mark_committed) c

  unfoldable pub commit : StagingHost A → Action Context (Unit {0})
  commit h c = if c.committed then (ok tt, c) else commit_stage h c.stage_dir c

  abbrev pub cleaned : StagingHost A → Option Text → Context → Context
  cleaned h none c = c
  cleaned h (some stage) c =
      if exists stage c.folders && not c.committed
      then record c { folders = (rmtree A h.moves stage c.folders).1 }
      else c

  unfoldable pub cleanup : StagingHost A → Context → Context
  cleanup h c = cleaned h c.stage_dir c

  -- __exit__, with the outcome of the block: what it raised goes on.
  unfoldable pub exit : StagingHost A → Outcome (Unit {0}) × Context → Outcome (Unit {0}) × Context
  exit h (err e, c) = (err e, cleanup h c)
  exit h (ok u, c) =
      if c.atomic_rename && not c.committed
      then commit h c
      else if not c.committed
      then (ok tt, cleanup h c)
      else (ok tt, c)

  -- with AtomicStagingContext(...) as stage_path: the block works on the directories.
  unfoldable pub with_staging :
      StagingHost A → (Text → Action (Folders A) (Unit {0})) → Action Context (Unit {0})
  with_staging h block = enter h >>= λ stage_path c. exit h (on_folders (block stage_path) c)
