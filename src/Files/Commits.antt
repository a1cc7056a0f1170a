-- ===== src/Files/Commits.antt =====
-- What a block in an `AtomicStagingContext` (app/core/atomic_io.py) leaves at the target.
use mathlib.Core.Path.{subst}
use palworld_server_service.Common.{
  ◌≡◌, refl, ap, ◌∙◌, true, false, Option, none, some, arith, Bool-cases, inl, inr,
}
use palworld_server_service.Common.Text.{Text, text_eq}
use palworld_server_service.Common.Outcome.{Outcome, ok, err, Action, continue}
use palworld_server_service.Files.Paths.{
  lookup, remove, put, exists, exists-none, exists-some, lookup-put,
}
use palworld_server_service.Files.Folders.{
  Folders, Swapped, replace_folder, replace_from, swap_directories-Swapped, rmtree-spares,
  tombstone_of, longer-text_eq,
}
use palworld_server_service.Files.Staging.{
  Context, StagingHost, buried, swap_in, mark_committed, commit, cleanup, exit, enter, with_staging,
}

-- The names of a swap differ, and the rename that rolls it back works.
pub record CanRollBack (A : Type 0) (h : StagingHost A) (stage target : Text) : Type 0 where
  pub stage_apart : text_eq stage target ≡ false
  pub target_apart : text_eq target stage ≡ false
  pub tombstone_apart : text_eq (tombstone_of target h.timestamp_str) stage ≡ false
  pub rolls_back : h.moves.replace_works (tombstone_of target h.timestamp_str) target ≡ true

module _ (A : Type 0) (empty : A) (h : StagingHost A) (stage target : Text) where
  buried-Swapped :
      (a : A) (o : Option A) (x : Outcome (Unit {0}) × Folders A)
      → Swapped A target a o x
      → Swapped A target a o (buried A empty h (tombstone_of target h.timestamp_str) x)
  buried-Swapped a o (ok u, d) e =
      rmtree-spares A h.moves (tombstone_of target h.timestamp_str) target d
        (longer-text_eq target h.timestamp_str)
      ∙ e
  buried-Swapped a o (err x, d) e = e

  first_move :
      (a : A) (o : Option A) (d : Folders A)
      → o ≡ some a
      → Swapped A target a (lookup target d) (replace_from A h.moves stage target o d)
  first_move a none d e = absurd (ground arith)
  first_move a (some b) d e =
      let same : b ≡ a = ground arith in
      elim (Bool-cases (h.moves.replace_works stage target)) [
        | inl works ↦ simp works (lookup-put target b (remove stage d) ∙ ap some same)
        | inr fails ↦ simp fails refl
      ]

  swap_in-Swapped :
      (a : A) (o : Option A) (d : Folders A)
      → lookup target d ≡ o
      → lookup stage d ≡ some a
      → CanRollBack A h stage target
      → Swapped A target a o (swap_in A empty h stage target d)
  unfolding swap_in replace_folder
  swap_in-Swapped a none d e at can = simp e (
      subst (λ o. Swapped A target a o (replace_folder A h.moves stage target d)) e
        (first_move a (lookup stage d) d at))
  swap_in-Swapped a (some t) d e at can = simp e (
      buried-Swapped a (some t) _ (
        swap_directories-Swapped A h.moves stage target h.timestamp_str a t d at e can.target_apart
          can.tombstone_apart can.rolls_back))

  -- What ends a block: it returns and the target is the stage, or it raises and the target is as the
  -- block left it.
  abbrev pub Ends : Option A → Option A → Outcome (Unit {0}) × Context A empty → Type 0
  Ends staged before (ok u, c) = lookup target c.folders ≡ staged
  Ends staged before (err e, c) = lookup target c.folders ≡ before

  -- The context in the block: nothing is committed yet.
  abbrev pub open_context : Folders A → Context A empty
  open_context d = record {
    target_dir = target;
    atomic_rename = true;
    stage_dir = some stage;
    committed = false;
    folders = d;
  }

  marked-Ends :
      (a : A) (before : Option A) (x : Outcome (Unit {0}) × Folders A)
      → Swapped A target a before x
      → Ends
          (some a)
          before
          (continue x.0 (λ u. mark_committed A empty) (record (open_context x.1) { folders = x.1 }))
  marked-Ends a before (ok u, d) e = e
  marked-Ends a before (err x, d) e = e

  committed-Ends :
      (o : Option A) (d : Folders A)
      → lookup stage d ≡ o
      → CanRollBack A h stage target
      → Ends o (lookup target d) (commit A empty h (open_context d))
  unfolding commit
  committed-Ends none d e can = simp (exists-none stage d e) refl
  committed-Ends (some a) d e can =
      simp (exists-some stage a d e)
        (marked-Ends a (lookup target d) _ (swap_in-Swapped a (lookup target d) d refl e can))

  -- After a block that raises, its error goes on and the target is as the block left it.
  abbrev pub Ended :
      Outcome (Unit {0}) → Option A → Option A → Outcome (Unit {0}) × Context A empty → Type 0
  Ended (ok u) staged before x = Ends staged before x
  Ended (err e) staged before x = (x.0 ≡ err e) × (lookup target x.1.folders ≡ before)

  exited-Ended :
      (x : Outcome (Unit {0}) × Folders A)
      → CanRollBack A h stage target
      → Ended x.0 (lookup stage x.1) (lookup target x.1) (exit A empty h (x.0, open_context x.1))
  unfolding exit cleanup
  exited-Ended (ok u, d) can = committed-Ends (lookup stage d) d refl can
  exited-Ended (err x, d) can = elim (Bool-cases (exists stage d)) [
    | inl stands ↦ simp stands (refl, rmtree-spares A h.moves stage target d can.stage_apart)
    | inr gone ↦ simp gone (refl, refl)
  ]

  -- With a renaming context whose stage could be made: where the block returns and so does the
  -- commit, the target is what the block made of the stage; where the commit raises, the target is
  -- as the block left it, and where the block raises, so it is and the error goes on. The names of
  -- stage, target and tombstone differ, and the rename that rolls a swap back works.
  pub with_staging-Ended :
      (block : Text → Action (Folders A) (Unit {0})) (d : Folders A)
      → h.mkdir_works ≡ true
      → h.mkdtemp ≡ some stage
      → CanRollBack A h stage target
      → Ended
          (block stage (put stage empty d)).0
          (lookup stage (block stage (put stage empty d)).1)
          (lookup target (block stage (put stage empty d)).1)
          (with_staging A empty h block (record (open_context d) { stage_dir = none }))
  unfolding with_staging enter
  with_staging-Ended block d can_make made can =
      simp (can_make, made) (exited-Ended (block stage (put stage empty d)) can)
