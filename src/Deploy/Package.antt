-- ===== src/Deploy/Package.antt =====
-- Checksums and the staging of a release package (app/engine/deployer.py). SHA-256, the archive
-- reader and the extraction are parameters.
use palworld_server_service.Common.{
  ℕ, zero, suc, Bool, false, Option, none, some, List, [], ◌∷◌, length, take, drop,
}
use palworld_server_service.Common.Text.{Text, strip}
use palworld_server_service.Common.Outcome.{Outcome, ok, err, os_error, value_error, Action}
use palworld_server_service.Common.Digest.{compare_digest}
use palworld_server_service.Files.Paths.{lookup, put}
use palworld_server_service.Files.Folders.{Folders}
use palworld_server_service.Files.Staging.{Context, StagingHost, with_staging}
use palworld_server_service.Deploy.Members.{Parts, TarInfo, validate_members}

-- What stands at the path of a package.
pub data Found : Type 0 where
  missing : Found
  no_file : Found
  file : List ℕ → Found
  -- a read that raises
  unreadable : Found

-- hashlib's incremental hash
pub record Hasher : Type 1 where
  pub State : Type 0
  pub start : State
  pub update : State → List ℕ → State
  pub hexdigest : State → Text

module _ (sha : Hasher) where
  -- The loop that reads blocks until an empty one, on fuel.
  unfoldable pub read_blocks : ℕ → ℕ → List ℕ → sha.State → Option sha.State
  read_blocks block zero stream hasher = none
  read_blocks block (suc fuel) [] hasher = some hasher
  read_blocks block (suc fuel) (b ∷ bs) hasher =
      read_blocks block fuel (drop block (b ∷ bs)) (sha.update hasher (take block (b ∷ bs)))

  abbrev pub digest_of : Option sha.State → Outcome Text
  digest_of none = err os_error
  digest_of (some hasher) = ok (sha.hexdigest hasher)

  -- SHA256_BLOCK_SIZE bytes at a time; a file of n bytes needs at most n blocks and the empty one.
  unfoldable pub compute_sha256 : ℕ → Found → Outcome Text
  compute_sha256 block missing = err os_error
  compute_sha256 block no_file = err value_error
  compute_sha256 block (file bytes) =
      digest_of (read_blocks block (suc (length bytes)) bytes sha.start)
  compute_sha256 block unreadable = err os_error

  abbrev pub compared : (Text → Text) → Text → Outcome Text → Outcome Bool
  compared lower expected_sha256 (ok calculated) =
      compare_digest (strip (lower calculated)) (strip (lower expected_sha256))
  compared lower expected_sha256 (err e) = ok false

  unfoldable pub verify_checksum : (Text → Text) → ℕ → Found → Text → Outcome Bool
  verify_checksum lower block found expected_sha256 =
      compared lower expected_sha256 (compute_sha256 block found)

module _ (A : Type 0) (empty : A) (resolve : Parts → Option Parts) where
  -- An archive: its members where it can be read, and what an extraction leaves in a directory.
  pub record Archive : Type 0 where
    pub getmembers : Outcome (List TarInfo)
    pub extractall : A → Outcome (Unit {0}) × A

  abbrev pub extracted : Text → Outcome (Unit {0}) × A → Folders A → Outcome (Unit {0}) × Folders A
  extracted stage (r, tree) d = (r, put stage tree d)

  abbrev pub extract_into : Archive → Text → Option A → Folders A → Outcome (Unit {0}) × Folders A
  extract_into archive stage none d = (err os_error, d)
  extract_into archive stage (some tree) d = extracted stage (archive.extractall tree) d

  abbrev pub unpack_checked : Archive → Text → Outcome (Unit {0}) → Action (Folders A) (Unit {0})
  unpack_checked archive stage (err e) d = (err e, d)
  unpack_checked archive stage (ok u) d = extract_into archive stage (lookup stage d) d

  -- The block in the staging context; `place` gives the path of a stage.
  abbrev pub unpack_members :
      Archive → (Text → Parts) → Text → Outcome (List TarInfo) → Action (Folders A) (Unit {0})
  unpack_members archive place stage (err e) d = (err e, d)
  unpack_members archive place stage (ok members) d =
      unpack_checked archive stage (validate_members resolve (place stage) members) d

  unfoldable pub unpack : Archive → (Text → Parts) → Text → Action (Folders A) (Unit {0})
  unpack archive place stage = unpack_members archive place stage archive.getmembers

  -- The package's path, where an archive is read from a file that stands there.
  unfoldable pub stage_release_package :
      StagingHost A → Found → Archive → (Text → Parts) → Action (Context A empty) (Unit {0})
  stage_release_package h missing archive place c = (err os_error, c)
  stage_release_package h no_file archive place c = (err value_error, c)
  stage_release_package h (file bytes) archive place c =
      with_staging A empty h (unpack archive place) c
  stage_release_package h unreadable archive place c =
      with_staging A empty h (unpack archive place) c
