-- ===== src/Files/Writes.antt =====
-- The promises of `atomic_write_file` (app/core/atomic_io.py) to those who call it.
use mathlib.Core.Option.{map as option_map}
use palworld_server_service.Common.{
  ℤ, ℕ, ◌≡◌, refl, ap, inl, inr, Bool, true, ◌&&◌, Option, none, some, List, [], ◌∷◌, arith,
  Bool-cases, All, length,
}
use palworld_server_service.Common.Text.{Text}
use palworld_server_service.Common.Outcome.{Outcome, ok, err}
use palworld_server_service.Files.Paths.{lookup}
use palworld_server_service.Files.Atomic.{
  Entry, Disk, Machine, Host, AtomicWriteResult, atomic_write_file, resolve_target_mode,
  stage_and_swap, clean_up,
}
use palworld_server_service.Files.Completion.{
  Works, returns, stage_and_swap-returns, clean_up-returns,
}
use palworld_server_service.Files.Refinement.{
  IsFresh, CellWrite, OldOrNew, content_at, Written, new_entry, stage_and_swap-Staged,
  clean_up-Written,
}

-- A process that has changed nothing yet.
abbrev pub starting : Disk → Machine
starting d = record { disk = d; seen = [] }

module _ (h : Host) (target : Text) (raw_bytes : List ℕ) (max_backups : ℤ) (make_backup : Bool)
    (mode : Option ℕ) (d : Disk) (fresh : IsFresh h target) where
  abbrev wrote : Outcome AtomicWriteResult × Machine
  wrote = atomic_write_file h target raw_bytes max_backups make_backup mode (starting d)

  abbrev target_mode : ℕ
  target_mode = resolve_target_mode h target mode d

  stays :
      (ds : List Disk)
      → All (λ x. lookup target x ≡ lookup target d) ds
      → All (OldOrNew (lookup target d) raw_bytes target) ds
  stays [] hs = tt
  stays (x ∷ ds) hs = (inl hs.0, stays ds hs.1)

  CellWrite-Written :
      (x : Outcome AtomicWriteResult × Machine)
      → Written h target (lookup target d) raw_bytes target_mode x
      → CellWrite raw_bytes (content_at target d) x.0 (content_at target x.1.disk)
  CellWrite-Written (ok r, n) w = (ap (option_map (λ (e : Entry). e.content)) w.0, w.1.1.0)
  CellWrite-Written (err e, n) w = ap (option_map (λ (e : Entry). e.content)) w.1.0

  OldOrNew-Written :
      (x : Outcome AtomicWriteResult × Machine)
      → Written h target (lookup target d) raw_bytes target_mode x
      → All (OldOrNew (lookup target d) raw_bytes target) (x.1.disk ∷ x.1.seen)
  OldOrNew-Written (ok r, n) w =
      (inr (ap (option_map (λ (e : Entry). e.content)) w.0), stays n.seen w.1.1.1)
  OldOrNew-Written (err e, n) w = (inl w.1.0, stays n.seen w.1.1)

  tried : Written h target (lookup target d) raw_bytes target_mode (
      clean_up h target
        (length raw_bytes)
        (stage_and_swap h target raw_bytes max_backups make_backup target_mode (starting d)))
  tried = clean_up-Written h target _ raw_bytes target_mode _ fresh (
      stage_and_swap-Staged h target _ raw_bytes target_mode max_backups make_backup _ fresh
        (refl, tt))

  -- Whatever fails, a write implements the write to a cell: it returns, the target holds the bytes
  -- and their number is reported, or it raises and the target holds what it held. The temporary name
  -- is neither the target nor a backup of it.
  pub atomic_write_file-CellWrite :
      CellWrite raw_bytes (content_at target d) wrote.0 (content_at target wrote.1.disk)
  unfolding atomic_write_file
  atomic_write_file-CellWrite = elim (Bool-cases (h.mkdir_works && h.create_works)) [
    | inl starts ↦ simp starts (CellWrite-Written _ tried)
    | inr refuses ↦ simp refuses refl
  ]

  -- A process that stops at any moment of a write leaves a target that is as it was, or that holds
  -- all the bytes. The temporary name is neither the target nor a backup of it.
  pub crash_safe : All (OldOrNew (lookup target d) raw_bytes target) (wrote.1.disk ∷ wrote.1.seen)
  unfolding atomic_write_file
  crash_safe = elim (Bool-cases (h.mkdir_works && h.create_works)) [
    | inl starts ↦ simp starts (OldOrNew-Written _ tried)
    | inr refuses ↦ simp refuses (inl refl, tt)
  ]

  finished :
      (x : Outcome AtomicWriteResult × Machine)
      → returns x.0 ≡ true
      → Written h target (lookup target d) raw_bytes target_mode x
      → (returns x.0 ≡ true)
        × ((lookup target x.1.disk
              ≡ some (new_entry h target (lookup target d) raw_bytes target_mode))
            × (lookup h.tmp_name x.1.disk ≡ none))
  finished (ok r, n) e w = (refl, (w.0, w.1.0))
  finished (err x, n) e w = absurd (ground arith)

  -- Where the parent directory can be made, the temporary file created, written and flushed, and the
  -- replacement made, a write returns: the target has the bytes and the mode that is asked for, the
  -- former one or 0o644, or a temporary file's where chmod fails, and no temporary file is left. The
  -- temporary name is neither the target nor a backup of it.
  pub write_completes :
      Works h
      → (returns wrote.0 ≡ true)
        × ((lookup target wrote.1.disk
              ≡ some (new_entry h target (lookup target d) raw_bytes target_mode))
            × (lookup h.tmp_name wrote.1.disk ≡ none))
  unfolding atomic_write_file
  write_completes works =
      let starts : (h.mkdir_works && h.create_works) ≡ true =
        ground (arith, works.mkdir_works, works.create_works) in
      simp starts (
        finished _
          (clean_up-returns h target (length raw_bytes) _ (
            stage_and_swap-returns h target raw_bytes max_backups make_backup target_mode
              (starting d) works fresh))
          tried)
