-- ===== src/Deploy/Live.antt =====
-- What `execute_atomic_swap` (app/engine/deployer.py) leaves where a release was installed before.
use palworld_server_service.Common.{
  ◌≡◌, refl, sym, ap, ◌∙◌, Bool, true, false, Option, none, some, arith, Bool-cases, inl, inr,
}
use palworld_server_service.Common.Text.{Text, text_eq, text_eq_refl, text_eq→eq}
use palworld_server_service.Common.Outcome.{Outcome, ok, err}
use palworld_server_service.Files.Paths.{
  lookup, remove, exists-some, lookup-put_other, lookup-remove_other,
}
use palworld_server_service.Files.Folders.{
  Folders, Swapped, replace_folder, replace_from, swap_directories-Swapped, rmtree-spares,
  tombstone_of, longer-text_eq,
}
use palworld_server_service.Deploy.Swap.{
  MoveEnd, moves_whole, fails_clean, fails_partly, SwapHost, move_from, fall_back, buried, archived,
  archive_dest, archive_or_cleanup_tombstone, execute_atomic_swap,
}

-- No archive goes to the target's own path.
abbrev pub Archives : (A : Type 0) → SwapHost A → Text → Text → Option Text → Type 0
Archives A h target target_name none = Unit
Archives A h target target_name (some backup_dir) =
    text_eq (archive_dest A h target_name backup_dir) target ≡ false

pub record CanSwap (A : Type 0) (h : SwapHost A) (staged target target_name : Text)
    (backup_dir : Option Text) : Type 0 where
  pub tombstone_apart : text_eq (tombstone_of target h.timestamp_str) staged ≡ false
  pub rolls_back : h.moves.replace_works (tombstone_of target h.timestamp_str) target ≡ true
  pub archives : Archives A h target target_name backup_dir

apart : (s t : Text) → text_eq s t ≡ false → text_eq t s ≡ false
apart s t h = elim (Bool-cases (text_eq t s)) [
  | inl same ↦
      absurd (ground (arith, sym (ap (text_eq s) (text_eq→eq t s same)) ∙ h, text_eq_refl s))
  | inr differs ↦ differs
]

module _ (A : Type 0) (h : SwapHost A) where
  move_from-spares :
      (end : MoveEnd A) (src dst q : Text) (o : Option A) (d : Folders A)
      → text_eq src q ≡ false
      → text_eq dst q ≡ false
      → lookup q (move_from A h end src dst o d).1 ≡ lookup q d
  move_from-spares end src dst q none d hs hd = refl
  move_from-spares moves_whole src dst q (some a) d hs hd =
      lookup-put_other dst q a (remove src d) hd ∙ lookup-remove_other src q d hs
  move_from-spares fails_clean src dst q (some a) d hs hd = refl
  move_from-spares (fails_partly part) src dst q (some a) d hs hd = lookup-put_other dst q part d hd

  replace_from-spares :
      (src dst q : Text) (o : Option A) (d : Folders A)
      → text_eq src q ≡ false
      → text_eq dst q ≡ false
      → lookup q (replace_from A h.moves src dst o d).1 ≡ lookup q d
  replace_from-spares src dst q none d hs hd = refl
  replace_from-spares src dst q (some a) d hs hd =
      elim (Bool-cases (h.moves.replace_works src dst)) [
        | inl works ↦
            simp works (lookup-put_other dst q a (remove src d) hd ∙ lookup-remove_other src q d hs)
        | inr fails ↦ simp fails refl
      ]

  fall_back-spares :
      (src dst q : Text) (x : Outcome (Unit {0}) × Folders A)
      → text_eq src q ≡ false
      → text_eq dst q ≡ false
      → lookup q (fall_back A h src dst x).1 ≡ lookup q x.1
  fall_back-spares src dst q (ok u, d) hs hd = refl
  fall_back-spares src dst q (err e, d) hs hd =
      move_from-spares (h.shutil_move src dst) src dst q (lookup src d) d hs hd

  buried-spares :
      (tombstone q : Text) (x : Bool × Folders A)
      → text_eq tombstone q ≡ false
      → lookup q (buried A h tombstone x) ≡ lookup q x.1
  buried-spares tombstone q (true, d) differs = refl
  buried-spares tombstone q (false, d) differs = rmtree-spares A h.moves tombstone q d differs

  archive-spares :
      (tombstone target target_name : Text) (backup_dir : Option Text) (d : Folders A)
      → text_eq tombstone target ≡ false
      → Archives A h target target_name backup_dir
      → lookup target (archive_or_cleanup_tombstone A h tombstone target_name backup_dir d)
        ≡ lookup target d
  unfolding archive_or_cleanup_tombstone replace_folder
  archive-spares tombstone target target_name none d differs away =
      rmtree-spares A h.moves tombstone target d differs
  archive-spares tombstone target target_name (some backup_dir) d differs away =
      let dest = archive_dest A h target_name backup_dir in
      elim (Bool-cases h.backup_mkdir_works) [
        | inl works ↦ simp works (
            buried-spares tombstone target _ differs
            ∙ (fall_back-spares tombstone dest target _ differs away
                ∙ replace_from-spares tombstone dest target (lookup tombstone d) d differs away))
        | inr fails ↦ simp fails (rmtree-spares A h.moves tombstone target d differs)
      ]

  abbrev pub Installed : Text → A → A → Bool × Folders A → Type 0
  Installed target new old (true, d) = lookup target d ≡ some new
  Installed target new old (false, d) = lookup target d ≡ some old

  archived-Installed :
      (target target_name : Text) (backup_dir : Option Text) (new old : A)
      (x : Outcome (Unit {0}) × Folders A)
      → Archives A h target target_name backup_dir
      → Swapped A target new (some old) x
      → Installed target new old
          (archived A h (tombstone_of target h.timestamp_str) target_name backup_dir x)
  archived-Installed target target_name backup_dir new old (ok u, d) away e =
      archive-spares (tombstone_of target h.timestamp_str) target target_name backup_dir d
        (longer-text_eq target h.timestamp_str) away
      ∙ e
  archived-Installed target target_name backup_dir new old (err x, d) away e = e

  -- Over a release that is installed, a swap answers yes and the new release stands in its place,
  -- or no and the old one stands there untouched, whatever fails but the rename that rolls it back.
  -- No archive goes to the target's path, and the tombstone's name is not the stage's.
  pub execute_atomic_swap-Installed :
      (staged target target_name : Text) (backup_dir : Option Text) (new old : A) (d : Folders A)
      → lookup staged d ≡ some new
      → lookup target d ≡ some old
      → CanSwap A h staged target target_name backup_dir
      → Installed target new old (execute_atomic_swap A h staged target target_name backup_dir d)
  unfolding execute_atomic_swap
  execute_atomic_swap-Installed staged target target_name backup_dir new old d at_staged at_target
        can =
      let there = exists-some staged new d at_staged in
      let live = exists-some target old d at_target in
      elim (Bool-cases (h.is_dir staged)) [
        | inr absent ↦ simp (there, absent) at_target
        | inl dir ↦ elim (Bool-cases (text_eq staged target)) [
          | inl same ↦ simp (there, dir, same) at_target
          | inr differs ↦ elim (Bool-cases h.mkdir_works) [
            | inr fails ↦ simp (there, dir, differs, fails) at_target
            | inl works ↦
                simp (there, dir, differs, works, live)
                  (archived-Installed target target_name backup_dir new old _ can.archives (
                    swap_directories-Swapped A h.moves staged target h.timestamp_str new old d
                      at_staged at_target (apart staged target differs) can.tombstone_apart
                      can.rolls_back))
          ]
        ]
      ]
