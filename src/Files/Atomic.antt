-- ===== src/Files/Atomic.antt =====
-- `atomic_write_file` (app/core/atomic_io.py) as the sequence of its changes to the directory of the
-- target. Which system calls fail, and where, is the host's choice. A machine keeps the directory as
-- it is and as it was before each change: what a process that stops there leaves behind.
use palworld_server_service.Common.{
  ℤ, pos, negsuc, ℕ, ◌-◌, ◌%◌, ltb, ◌==◌, Bool, true, false, ◌&&◌, ◌||◌, not, Option, none, some,
  List, [], ◌∷◌, ◌++◌, length, take, if◌then◌else◌, keep_where,
}
use palworld_server_service.Common.Text.{Text, codes, starts_with}
use palworld_server_service.Common.Outcome.{
  Outcome, ok, err, os_error, Action, pure, raise, ◌>>=◌, ◌>>◌,
}
use palworld_server_service.Files.Paths.{lookup, remove, put, moved}

-- A file: its bytes, st_mode and the time of its last change.
pub record Entry : Type 0 where
  pub content : List ℕ
  pub mode : ℕ
  pub mtime : ℕ

abbrev pub Disk : Type 0
Disk = List (Text × Entry)

pub record Machine : Type 0 where
  pub disk : Disk
  pub seen : List Disk

abbrev pub change : (Disk → Disk) → Action Machine Unit
change f m = (ok tt, record { disk = f m.disk; seen = m.disk ∷ m.seen })

-- The names that tempfile and the clock give, and which calls succeed. A write or a copy may stop
-- after some bytes.
pub record Host : Type 0 where
  pub tmp_name : Text
  pub timestamp_str : Text
  pub now : ℕ
  pub mkdir_works : Bool
  pub stat_works : Text → Bool
  pub create_works : Bool
  pub write_stops : Option ℕ
  pub fsync_works : Bool
  pub chmod_works : Bool
  pub copy_stops : Option ℕ
  pub glob_works : Bool
  pub unlink_works : Text → Bool
  pub replace_works : Bool

pub record AtomicWriteResult : Type 0 where
  pub target_path : Text
  pub bytes_written : ℕ
  pub backup_path : Option Text

-- The file modes 0o644 and 0o600, the latter a temporary file's.
abbrev pub resolve_target_mode : Host → Text → Option ℕ → Disk → ℕ
resolve_target_mode h target (some explicit_mode) d = explicit_mode
resolve_target_mode h target none d = elim (lookup target d) [
  | none ↦ 420
  | some e ↦ if h.stat_works target then e.mode % 512 else 420
]

-- The glob `{target.name}.bak.*`, for a name with no wildcard in it.
unfoldable pub is_backup : Text → Text → Bool
is_backup target name = starts_with (target ++ codes ".bak.") name

-- _sort_key, and the order of Python's tuples and strings
abbrev sort_key : Host → Text × Entry → ℕ × Text
sort_key h (name, e) = (if h.stat_works name then e.mtime else 0, name)

unfoldable pub text_before : Text → Text → Bool
text_before [] t = true
text_before (c ∷ s) [] = false
text_before (c ∷ s) (d ∷ t) = let rest = text_before s t in ltb c d || (c == d && rest)

abbrev pub key_before : ℕ × Text → ℕ × Text → Bool
key_before (a, s) (b, t) = ltb a b || (a == b && text_before s t)

abbrev pub comes_before : Host → Text × Entry → Text × Entry → Bool
comes_before h x y = key_before (sort_key h x) (sort_key h y)

unfoldable pub insert : Host → Text × Entry → Disk → Disk
insert h x [] = x ∷ []
insert h x (y ∷ ys) =
    let rest = insert h x ys in if comes_before h x y then x ∷ y ∷ ys else y ∷ rest

unfoldable pub sort : Host → Disk → Disk
sort h [] = []
sort h (x ∷ xs) = insert h x (sort h xs)

abbrev pub named : (Text → Bool) → Text × Entry → Bool
named test (name, e) = test name

unfoldable pub candidate_backups : Host → Text → Disk → Disk
candidate_backups h target d = sort h (keep_where (named (is_backup target)) d)

-- Each unlink may fail; the loop goes on.
unfoldable pub unlink_all : Host → Disk → Action Machine Unit
unlink_all h [] = pure tt
unlink_all h ((name, e) ∷ rest) =
    (if h.unlink_works name then change (remove name) else pure tt) >> unlink_all h rest

-- On ℕ no candidate is taken where there is no excess.
unfoldable pub prune_backups : Host → Text → ℤ → Action Machine Unit
prune_backups h target (negsuc n) m = (ok tt, m)
prune_backups h target (pos max_backups) m =
    let candidates = candidate_backups h target m.disk in
    if h.glob_works
    then unlink_all h (take (length candidates - max_backups) candidates) m
    else (ok tt, m)

abbrev pub backup_name : Host → Text → Text
backup_name h target = target ++ (codes ".bak." ++ h.timestamp_str)

-- shutil.copy2: the bytes, then mode and time. A copy that stops leaves what it wrote.
abbrev pub copy_until : Host → Option ℕ → Entry → Text → Action Machine Bool
copy_until h none e to = change (put to e) >> pure true
copy_until h (some n) e to =
    change (put to (record { content = take n e.content; mode = 420; mtime = h.now })) >> pure false

unfoldable pub copy2 : Host → Entry → Text → Action Machine Bool
copy2 h e to = copy_until h h.copy_stops e to

unfoldable pub snapshot_of : Host → Text → ℤ → Option Entry → Action Machine (Option Text)
snapshot_of h target max_backups none = pure none
snapshot_of h target max_backups (some e) =
    if not (h.stat_works target) || length e.content == 0
    then pure none
    else copy2 h e (backup_name h target) >>= λ copied.
        if copied
        then prune_backups h target max_backups >> pure (some (backup_name h target))
        else pure none

abbrev pub create_backup_snapshot : Host → Text → ℤ → Action Machine (Option Text)
create_backup_snapshot h target max_backups m =
    snapshot_of h target max_backups (lookup target m.disk) m

-- The block of NamedTemporaryFile: create, write, flush, fsync.
abbrev pub write_until : Host → Option ℕ → List ℕ → Action Machine Unit
write_until h none raw_bytes =
    change (put h.tmp_name (record { content = raw_bytes; mode = 384; mtime = h.now }))
    >> (if h.fsync_works then pure tt else raise os_error)
write_until h (some n) raw_bytes =
    change (put h.tmp_name (record { content = take n raw_bytes; mode = 384; mtime = h.now }))
    >> raise os_error

unfoldable pub write_temporary : Host → List ℕ → Action Machine Unit
write_temporary h raw_bytes = write_until h h.write_stops raw_bytes

unfoldable pub chmod : Host → Text → ℕ → Option Entry → Action Machine Unit
chmod h name target_mode none = pure tt
chmod h name target_mode (some e) =
    if h.chmod_works then change (put name (record e { mode = target_mode })) else pure tt

unfoldable pub replace : Host → Text → Text → Option Entry → Action Machine Unit
replace h src dst none = raise os_error
replace h src dst (some e) = if h.replace_works then change (moved src dst e) else raise os_error

-- The body of the try. Flushing the directory at the end changes nothing here and raises nothing.
unfoldable pub stage_and_swap : Host → Text → List ℕ → ℤ → Bool → ℕ → Action Machine (Option Text)
stage_and_swap h target raw_bytes max_backups make_backup target_mode =
    change (put h.tmp_name (record { content = []; mode = 384; mtime = h.now }))
    >> write_temporary h raw_bytes
    >> (λ m. chmod h h.tmp_name target_mode (lookup h.tmp_name m.disk) m)
    >> (if make_backup then create_backup_snapshot h target max_backups else pure none)
    >>= λ backup_path.
        (λ m. replace h h.tmp_name target (lookup h.tmp_name m.disk) m) >> pure backup_path

-- The finally block: what raises, raises before the replacement is complete.
unfoldable pub clean_up :
    Host → Text → ℕ → Outcome (Option Text) × Machine → Outcome AtomicWriteResult × Machine
clean_up h target bytes_written (ok backup_path, m) = (
  ok (record { target_path = target; bytes_written = bytes_written; backup_path = backup_path }),
  m,
)
clean_up h target bytes_written (err e, m) =
    ((if h.unlink_works h.tmp_name then change (remove h.tmp_name) else pure tt) >> raise e) m

unfoldable pub atomic_write_file :
    Host → Text → List ℕ → ℤ → Bool → Option ℕ → Action Machine AtomicWriteResult
atomic_write_file h target raw_bytes max_backups make_backup mode m =
    if h.mkdir_works && h.create_works
    then clean_up h target (length raw_bytes) (
        stage_and_swap h target raw_bytes max_backups make_backup
          (resolve_target_mode h target mode m.disk) m)
    else (err os_error, m)

unfoldable pub atomic_write_ini : Host → Text → List ℕ → ℤ → Bool → Action Machine Text
atomic_write_ini h target serialized_content max_backups make_backup =
    atomic_write_file h target serialized_content max_backups make_backup none >>= λ result.
    pure result.target_path
