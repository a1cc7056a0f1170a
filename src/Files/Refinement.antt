-- ===== src/Files/Refinement.antt =====
-- What `atomic_write_file` (app/core/atomic_io.py) promises of its target: a cell that holds the old
-- contents until it holds the new ones.
use mathlib.Core.Option.{map as option_map}
use palworld_server_service.Common.{
  ℤ, ℕ, ◌≡◌, refl, ap, ◌∙◌, ◌⊎◌, inl, inr, Bool, true, false, Option, none, some, List, ◌∷◌, arith,
  if◌then◌else◌, Bool-cases, All, length,
}
use palworld_server_service.Common.Text.{Text, text_eq}
use palworld_server_service.Common.Outcome.{Outcome, ok, err, Action, pure, ◌>>=◌, ◌>>◌, continue}
use palworld_server_service.Files.Paths.{
  lookup, remove, put, lookup-remove, lookup-put, lookup-put_other, lookup-remove_other,
}
use palworld_server_service.Files.Atomic.{
  Entry, Disk, Machine, Host, AtomicWriteResult, is_backup, create_backup_snapshot, chmod, replace,
  stage_and_swap, write_temporary, clean_up, write_until,
}
use palworld_server_service.Files.Backups.{
  Always, All-Unit, target-is_backup, create_backup_snapshot-Kept,
}

-- What stands at a name of the directory.
abbrev pub content_at : Text → Disk → Option (List ℕ)
content_at name d = option_map (λ (e : Entry). e.content) (lookup name d)

-- The name tempfile chose: neither the target nor a backup of it.
pub record IsFresh (h : Host) (target : Text) : Type 0 where
  pub is_not_target : text_eq h.tmp_name target ≡ false
  pub target_is_not : text_eq target h.tmp_name ≡ false
  pub is_not_backup : is_backup target h.tmp_name ≡ false

-- A write to a cell: it returns and the cell holds the bytes, or it raises and nothing changed.
abbrev pub CellWrite :
    List ℕ → Option (List ℕ) → Outcome AtomicWriteResult → Option (List ℕ) → Type 0
CellWrite raw_bytes old (ok r) new = (new ≡ some raw_bytes) × (r.bytes_written ≡ length raw_bytes)
CellWrite raw_bytes old (err e) new = new ≡ old

abbrev pub OldOrNew : Option Entry → List ℕ → Text → Disk → Type 0
OldOrNew v raw_bytes target d = (lookup target d ≡ v) ⊎ (content_at target d ≡ some raw_bytes)

-- The body of the try and what it leaves.
abbrev Staged : Host → Text → Option Entry → Entry → Outcome (Option Text) × Machine → Type 0
Staged h target v new (ok b, m) =
    (lookup target m.disk ≡ some new)
    × ((lookup h.tmp_name m.disk ≡ none) × All (λ d. lookup target d ≡ v) m.seen)
Staged h target v new (err e, m) = Always (λ d. lookup target d ≡ v) m

module _ (h : Host) (target : Text) (v : Option Entry) (new : Entry) where
  replaced :
      (b : Option Text) (o : Option Entry) (m : Machine)
      → o ≡ some new
      → text_eq target h.tmp_name ≡ false
      → Always (λ d. lookup target d ≡ v) m
      → Staged h target v new ((replace h h.tmp_name target o >> pure b) m)
  unfolding replace
  replaced b none m e differs k = absurd (ground arith)
  replaced b (some x) m e differs k = elim (Bool-cases h.replace_works) [
    | inl works ↦
        let same : x ≡ new = ground arith in
        simp works (
          lookup-put target x (remove h.tmp_name m.disk) ∙ ap some same,
          (
            lookup-put_other target h.tmp_name x (remove h.tmp_name m.disk) differs
                ∙ lookup-remove h.tmp_name m.disk,
            k,
          ),
        )
    | inr fails ↦ simp fails k
  ]

  swapped :
      (r : Outcome (Option Text)) (m : Machine)
      → lookup h.tmp_name m.disk ≡ some new
      → text_eq target h.tmp_name ≡ false
      → Always (λ d. lookup target d ≡ v) m
      → Staged h target v new (
          continue r
            (λ b. (λ m. replace h h.tmp_name target (lookup h.tmp_name m.disk) m) >> pure b)
            m)
  swapped (ok b) m e differs k = replaced b (lookup h.tmp_name m.disk) m e differs k
  swapped (err x) m e differs k = k

  backed :
      (max_backups : ℤ) (make_backup : Bool) (m : Machine)
      → IsFresh h target
      → lookup h.tmp_name m.disk ≡ some new
      → Always (λ d. lookup target d ≡ v) m
      → Staged h target v new (
          ((if make_backup then create_backup_snapshot h target max_backups else pure none) >>= λ b.
          (λ m. replace h h.tmp_name target (lookup h.tmp_name m.disk) m) >> pure b)
            m)
  backed max_backups false m fresh e k = swapped (ok none) m e fresh.target_is_not k
  backed max_backups true m fresh e k =
      let x = create_backup_snapshot h target max_backups m in
      swapped x.0 x.1
        (create_backup_snapshot-Kept h target h.tmp_name (some new) (λ d. Unit {0}) (λ d e. tt)
          max_backups m fresh.is_not_backup (e, All-Unit m.seen)).0
        fresh.target_is_not
        (create_backup_snapshot-Kept h target target v (λ d. lookup target d ≡ v) (λ d e. e)
          max_backups m (target-is_backup target) k)

module _ (h : Host) (target : Text) (v : Option Entry) (raw_bytes : List ℕ) (target_mode : ℕ) where
  abbrev pub fresh_entry : Entry
  fresh_entry = record { content = raw_bytes; mode = 384; mtime = h.now }

  abbrev pub new_entry : Entry
  new_entry = record {
    content = raw_bytes;
    mode = if h.chmod_works then target_mode else 384;
    mtime = h.now;
  }

  abbrev then_swap : ℤ → Bool → Action Machine Unit → Action Machine (Option Text)
  then_swap max_backups make_backup before =
      before
      >> (if make_backup then create_backup_snapshot h target max_backups else pure none)
      >>= λ b. (λ m. replace h h.tmp_name target (lookup h.tmp_name m.disk) m) >> pure b

  chmodded :
      (o : Option Entry) (max_backups : ℤ) (make_backup : Bool) (m : Machine)
      → o ≡ some fresh_entry
      → IsFresh h target
      → lookup h.tmp_name m.disk ≡ some fresh_entry
      → Always (λ d. lookup target d ≡ v) m
      → Staged h target v new_entry
          (then_swap max_backups make_backup (chmod h h.tmp_name target_mode o) m)
  unfolding chmod
  chmodded none max_backups make_backup m e fresh at k = absurd (ground arith)
  chmodded (some x) max_backups make_backup m e fresh at k =
      let same : x ≡ fresh_entry = ground arith in
      elim (Bool-cases h.chmod_works) [
        | inl works ↦ simp works (
            backed h target v _ max_backups make_backup
              (record {
                disk = put h.tmp_name (record x { mode = target_mode }) m.disk;
                seen = m.disk ∷ m.seen;
              })
              fresh
              (lookup-put h.tmp_name (record x { mode = target_mode }) m.disk
                ∙ ap (λ (e : Entry). some (record e { mode = target_mode })) same)
              (lookup-put_other h.tmp_name target _ m.disk fresh.is_not_target ∙ k.0, k))
        | inr fails ↦ simp fails (backed h target v _ max_backups make_backup m fresh at k)
      ]

  staged :
      (stops : Option ℕ) (max_backups : ℤ) (make_backup : Bool) (m : Machine)
      → IsFresh h target
      → Always (λ d. lookup target d ≡ v) m
      → Staged h target v new_entry (
          then_swap max_backups make_backup
            (write_until h stops raw_bytes >> λ m.
              chmod h h.tmp_name target_mode (lookup h.tmp_name m.disk) m)
            m)
  staged (some n) max_backups make_backup m fresh k =
      (lookup-put_other h.tmp_name target _ m.disk fresh.is_not_target ∙ k.0, k)
  staged none max_backups make_backup m fresh k =
      let written : Machine = record {
        disk = put h.tmp_name fresh_entry m.disk;
        seen = m.disk ∷ m.seen;
      } in
      let same = lookup-put_other h.tmp_name target fresh_entry m.disk fresh.is_not_target ∙ k.0 in
      elim (Bool-cases h.fsync_works) [
        | inl works ↦ simp works (
            chmodded (lookup h.tmp_name written.disk) max_backups make_backup written
              (lookup-put h.tmp_name fresh_entry m.disk) fresh
              (lookup-put h.tmp_name fresh_entry m.disk) (same, k))
        | inr fails ↦ simp fails (same, k)
      ]

  pub stage_and_swap-Staged :
      (max_backups : ℤ) (make_backup : Bool) (m : Machine)
      → IsFresh h target
      → Always (λ d. lookup target d ≡ v) m
      → Staged h target v new_entry
          (stage_and_swap h target raw_bytes max_backups make_backup target_mode m)
  unfolding stage_and_swap write_temporary
  stage_and_swap-Staged max_backups make_backup m fresh k =
      staged h.write_stops max_backups make_backup _ fresh
        (lookup-put_other h.tmp_name target _ m.disk fresh.is_not_target ∙ k.0, k)

  -- What the whole call leaves.
  abbrev pub Written : Outcome AtomicWriteResult × Machine → Type 0
  Written (ok r, m) =
      (lookup target m.disk ≡ some new_entry)
      × ((lookup h.tmp_name m.disk ≡ none)
          × ((r.bytes_written ≡ length raw_bytes) × All (λ d. lookup target d ≡ v) m.seen))
  Written (err e, m) =
      (h.unlink_works h.tmp_name ≡ true → lookup h.tmp_name m.disk ≡ none)
      × Always (λ d. lookup target d ≡ v) m

  pub clean_up-Written :
      (x : Outcome (Option Text) × Machine)
      → IsFresh h target
      → Staged h target v new_entry x
      → Written (clean_up h target (length raw_bytes) x)
  unfolding clean_up
  clean_up-Written (ok b, m) fresh s = (s.0, (s.1.0, (refl, s.1.1)))
  clean_up-Written (err e, m) fresh s = elim (Bool-cases (h.unlink_works h.tmp_name)) [
    | inl works ↦ simp works (
      λ w. lookup-remove h.tmp_name m.disk,
      (lookup-remove_other h.tmp_name target m.disk fresh.is_not_target ∙ s.0, s),
    )
    | inr fails ↦ simp fails (λ w. absurd (ground (arith, w)), s)
  ]
