-- ===== src/Files/Completion.antt =====
-- That `atomic_write_file` (app/core/atomic_io.py) gets to its end: a backup never raises, and
-- what raises is the temporary file or the replacement.
use palworld_server_service.Common.{
  ℤ, pos, negsuc, ℕ, ◌==◌, ◌≡◌, refl, Bool, true, false, ◌||◌, not, Option, none, some, List, [],
  ◌∷◌, arith, if◌then◌else◌, Bool-cases, inl, inr, length,
}
use palworld_server_service.Common.Text.{Text}
use palworld_server_service.Common.Outcome.{Outcome, ok, err, pure, ◌>>=◌, ◌>>◌, continue}
use palworld_server_service.Files.Paths.{lookup, remove, put, lookup-put}
use palworld_server_service.Files.Refinement.{IsFresh}
use palworld_server_service.Files.Backups.{All-Unit, create_backup_snapshot-Kept}
use palworld_server_service.Files.Atomic.{
  Entry, Disk, Machine, Host, unlink_all, prune_backups, backup_name, copy_until, copy2,
  snapshot_of, create_backup_snapshot, chmod, replace, write_temporary, stage_and_swap, clean_up,
}

-- The calls that a write cannot do without work.
pub record Works (h : Host) : Type 0 where
  pub mkdir_works : h.mkdir_works ≡ true
  pub create_works : h.create_works ≡ true
  pub write_works : h.write_stops ≡ none
  pub fsync_works : h.fsync_works ≡ true
  pub replace_works : h.replace_works ≡ true

abbrev pub returns : {A : Type 0} → Outcome A → Bool
returns (ok a) = true
returns (err e) = false

module _ (h : Host) where
  unlink_all-returns : (xs : Disk) (m : Machine) → returns (unlink_all h xs m).0 ≡ true
  unfolding unlink_all
  unlink_all-returns [] m = refl
  unlink_all-returns ((p, e) ∷ xs) m = elim (Bool-cases (h.unlink_works p)) [
    | inl works ↦
        simp works
          (unlink_all-returns xs (record { disk = remove p m.disk; seen = m.disk ∷ m.seen }))
    | inr fails ↦ simp fails (unlink_all-returns xs m)
  ]

  prune_backups-returns :
      (target : Text) (max_backups : ℤ) (m : Machine)
      → returns (prune_backups h target max_backups m).0 ≡ true
  unfolding prune_backups
  prune_backups-returns target (negsuc n) m = refl
  prune_backups-returns target (pos n) m = elim (Bool-cases h.glob_works) [
    | inl works ↦ simp works (unlink_all-returns _ m)
    | inr fails ↦ simp fails refl
  ]

  pure-returns :
      {A B : Type 0} (r : Outcome A) (b : B) (m : Machine)
      → returns r ≡ true
      → returns (continue r (λ a. pure b) m).0 ≡ true
  pure-returns (ok a) b m e = refl
  pure-returns (err x) b m e = absurd (ground arith)

  copied-returns :
      (stops : Option ℕ) (e : Entry) (target : Text) (max_backups : ℤ) (m : Machine)
      → returns
          ((copy_until h stops e (backup_name h target) >>= λ copied.
              if copied
              then prune_backups h target max_backups >> pure (some (backup_name h target))
              else pure none)
            m).0
        ≡ true
  copied-returns none e target max_backups m = pure-returns _ _ _ (prune_backups-returns target _ _)
  copied-returns (some n) e target max_backups m = refl

  snapshot_of-returns :
      (o : Option Entry) (target : Text) (max_backups : ℤ) (m : Machine)
      → returns (snapshot_of h target max_backups o m).0 ≡ true
  unfolding snapshot_of copy2
  snapshot_of-returns none target max_backups m = refl
  snapshot_of-returns (some e) target max_backups m =
      elim (Bool-cases (not (h.stat_works target) || length e.content == 0)) [
        | inl skipped ↦ simp skipped refl
        | inr taken ↦ simp taken (copied-returns h.copy_stops e target max_backups m)
      ]

  pub create_backup_snapshot-returns :
      (target : Text) (max_backups : ℤ) (m : Machine)
      → returns (create_backup_snapshot h target max_backups m).0 ≡ true
  create_backup_snapshot-returns target max_backups m =
      snapshot_of-returns (lookup target m.disk) target max_backups m

  replaced-returns :
      (b : Option Text) (target : Text) (o : Option Entry) (e : Entry) (m : Machine)
      → o ≡ some e
      → h.replace_works ≡ true
      → returns ((replace h h.tmp_name target o >> pure b) m).0 ≡ true
  unfolding replace
  replaced-returns b target none e m same works = absurd (ground arith)
  replaced-returns b target (some x) e m same works = simp works refl

  swapped-returns :
      (r : Outcome (Option Text)) (target : Text) (e : Entry) (m : Machine)
      → returns r ≡ true
      → lookup h.tmp_name m.disk ≡ some e
      → h.replace_works ≡ true
      → returns
          (continue r
            (λ b. (λ m. replace h h.tmp_name target (lookup h.tmp_name m.disk) m) >> pure b)
            m).0
        ≡ true
  swapped-returns (ok b) target e m ok_r same works =
      replaced-returns b target (lookup h.tmp_name m.disk) e m same works
  swapped-returns (err x) target e m ok_r same works = absurd (ground arith)

  backed-returns :
      (max_backups : ℤ) (make_backup : Bool) (target : Text) (e : Entry) (m : Machine)
      → IsFresh h target
      → h.replace_works ≡ true
      → lookup h.tmp_name m.disk ≡ some e
      → returns
          (((if make_backup then create_backup_snapshot h target max_backups else pure none)
              >>= λ b. (λ m. replace h h.tmp_name target (lookup h.tmp_name m.disk) m) >> pure b)
            m).0
        ≡ true
  backed-returns max_backups false target e m fresh works at =
      swapped-returns (ok none) target e m refl at works
  backed-returns max_backups true target e m fresh works at =
      let x = create_backup_snapshot h target max_backups m in
      swapped-returns x.0 target e x.1 (create_backup_snapshot-returns target max_backups m)
        (create_backup_snapshot-Kept h target h.tmp_name (some e) (λ d. Unit {0}) (λ d e. tt)
          max_backups m fresh.is_not_backup (at, All-Unit m.seen)).0
        works

  chmodded-returns :
      (o : Option Entry) (max_backups : ℤ) (make_backup : Bool) (target : Text) (mode : ℕ)
      (e : Entry) (m : Machine)
      → o ≡ some e
      → IsFresh h target
      → h.replace_works ≡ true
      → lookup h.tmp_name m.disk ≡ some e
      → returns
          ((chmod h h.tmp_name mode o
              >> (if make_backup then create_backup_snapshot h target max_backups else pure none)
              >>= λ b. (λ m. replace h h.tmp_name target (lookup h.tmp_name m.disk) m) >> pure b)
            m).0
        ≡ true
  unfolding chmod
  chmodded-returns none max_backups make_backup target mode e m same fresh works at =
      absurd (ground arith)
  chmodded-returns (some x) max_backups make_backup target mode e m same fresh works at =
      elim (Bool-cases h.chmod_works) [
        | inl can ↦ simp can (
            backed-returns max_backups make_backup target (record x { mode = mode })
              (record {
                disk = put h.tmp_name (record x { mode = mode }) m.disk;
                seen = m.disk ∷ m.seen;
              })
              fresh works (lookup-put h.tmp_name (record x { mode = mode }) m.disk))
        | inr fails ↦ simp fails (backed-returns max_backups make_backup target e m fresh works at)
      ]

  pub stage_and_swap-returns :
      (target : Text) (raw_bytes : List ℕ) (max_backups : ℤ) (make_backup : Bool) (mode : ℕ)
      (m : Machine)
      → Works h
      → IsFresh h target
      → returns (stage_and_swap h target raw_bytes max_backups make_backup mode m).0 ≡ true
  unfolding stage_and_swap write_temporary
  stage_and_swap-returns target raw_bytes max_backups make_backup mode m works fresh =
      simp (works.write_works, works.fsync_works)
        (chmodded-returns _ max_backups make_backup target mode _ _ (lookup-put h.tmp_name _ _)
          fresh works.replace_works (lookup-put h.tmp_name _ _))

  pub clean_up-returns :
      (target : Text) (n : ℕ) (x : Outcome (Option Text) × Machine)
      → returns x.0 ≡ true
      → returns (clean_up h target n x).0 ≡ true
  unfolding clean_up
  clean_up-returns target n (ok b, m) e = refl
  clean_up-returns target n (err x, m) e = absurd (ground arith)
