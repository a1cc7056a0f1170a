-- ===== src/Files/Folders.antt =====
-- Directories that stand side by side and are renamed as a whole, by what is in them: the moves
-- that `AtomicStagingContext` (app/core/atomic_io.py) and the deployer share.
use palworld_server_service.Common.{
  ◌≡◌, refl, ◌∙◌, Bool, true, false, Option, none, some, List, [], ◌∷◌, ◌++◌, arith, if◌then◌else◌,
  Bool-cases, inl, inr,
}
use palworld_server_service.Common.Text.{Text, codes, text_eq}
use palworld_server_service.Common.Outcome.{Outcome, ok, err, os_error, Action, ◌>>◌, raise}
use palworld_server_service.Files.Paths.{
  lookup, remove, put, moved, lookup-remove_other, lookup-put, lookup-put_other,
}

-- A new name beside the target, with the time of the swap in it.
abbrev pub tombstone_of : Text → Text → Text
tombstone_of target timestamp_str = target ++ (codes ".old." ++ timestamp_str)

pub text_eq-longer : (t : Text) (s : Text) → text_eq t (t ++ (codes ".old." ++ s)) ≡ false
unfolding text_eq
text_eq-longer [] s = refl
text_eq-longer (c ∷ t) s = ground (arith, text_eq-longer t s)

pub longer-text_eq : (t : Text) (s : Text) → text_eq (t ++ (codes ".old." ++ s)) t ≡ false
unfolding text_eq
longer-text_eq [] s = refl
longer-text_eq (c ∷ t) s = ground (arith, longer-text_eq t s)

module _ (A : Type 0) where
  abbrev pub Folders : Type 0
  Folders = List (Text × A)

  -- Which renames work, and what a removal that fails leaves.
  pub record Moves : Type 0 where
    pub replace_works : Text → Text → Bool
    pub rmtree_leaves : Text → Option A

  abbrev pub replace_from : Moves → Text → Text → Option A → Action Folders (Unit {0})
  replace_from v src dst none = raise os_error
  replace_from v src dst (some a) =
      if v.replace_works src dst then (λ d. (ok tt, moved src dst a d)) else raise os_error

  -- os.replace
  unfoldable pub replace_folder : Moves → Text → Text → Action Folders (Unit {0})
  replace_folder v src dst d = replace_from v src dst (lookup src d) d

  -- shutil.rmtree
  abbrev pub removed : Option A → Text → Folders → Outcome (Unit {0}) × Folders
  removed none p d = (ok tt, remove p d)
  removed (some rest) p d = (err os_error, put p rest d)

  unfoldable pub rmtree : Moves → Text → Action Folders (Unit {0})
  rmtree v p d = removed (v.rmtree_leaves p) p d

  -- The target makes way for the stage under the name of the tombstone; where the stage cannot be
  -- moved, the target is moved back, if that works.
  abbrev pub rolled_back :
      Moves → Text → Text → Outcome (Unit {0}) × Folders → Outcome (Unit {0}) × Folders
  rolled_back v target tombstone (ok u, d) = (ok tt, d)
  rolled_back v target tombstone (err e, d) = (err e, (replace_folder v tombstone target d).1)

  unfoldable pub swap_directories_with_rollback :
      Moves → Text → Text → Text → Action Folders (Unit {0})
  swap_directories_with_rollback v stage target tombstone =
      replace_folder v target tombstone >> λ d.
      rolled_back v target tombstone (replace_folder v stage target d)

  -- What a rename does where it works, and where it does not.
  pub replace_folder-works :
      (v : Moves) (src dst : Text) (a : A) (d : Folders)
      → lookup src d ≡ some a
      → v.replace_works src dst ≡ true
      → replace_folder v src dst d ≡ (ok tt, moved src dst a d)
  unfolding replace_folder
  replace_folder-works v src dst a d e works = simp (e, works) refl

  pub replace_folder-fails :
      (v : Moves) (src dst : Text) (d : Folders)
      → v.replace_works src dst ≡ false
      → replace_folder v src dst d ≡ (err os_error, d)
  unfolding replace_folder
  replace_folder-fails v src dst d fails = from (lookup src d)
    where
      from : (o : Option A) → replace_from v src dst o d ≡ (err os_error, d)
      from none = refl
      from (some a) = simp fails refl

  pub rmtree-spares :
      (v : Moves) (p q : Text) (d : Folders)
      → text_eq p q ≡ false
      → lookup q (rmtree v p d).1 ≡ lookup q d
  unfolding rmtree
  rmtree-spares v p q d differs = from (v.rmtree_leaves p)
    where
      from : (o : Option A) → lookup q (removed o p d).1 ≡ lookup q d
      from none = lookup-remove_other p q d differs
      from (some rest) = lookup-put_other p q rest d differs

  abbrev pub Swapped : Text → A → Option A → Outcome (Unit {0}) × Folders → Type 0
  Swapped target a before (ok u, d) = lookup target d ≡ some a
  Swapped target a before (err e, d) = lookup target d ≡ before

  -- A swap puts the stage's directory in the target's place or leaves the target as it was, where
  -- the rename that rolls it back works.
  pub swap_directories-Swapped :
      (v : Moves) (stage target timestamp_str : Text) (a t : A) (d : Folders)
      → lookup stage d ≡ some a
      → lookup target d ≡ some t
      → text_eq target stage ≡ false
      → text_eq (tombstone_of target timestamp_str) stage ≡ false
      → v.replace_works (tombstone_of target timestamp_str) target ≡ true
      → Swapped target a
          (some t)
          (swap_directories_with_rollback v stage target (tombstone_of target timestamp_str) d)
  unfolding swap_directories_with_rollback
  swap_directories-Swapped v stage target timestamp_str a t d at_stage at_target apart aside back =
      let tombstone = tombstone_of target timestamp_str in
      let displaced : Folders = moved target tombstone t d in
      let staged : lookup stage displaced ≡ some a =
        lookup-put_other tombstone stage t (remove target d) aside
        ∙ (lookup-remove_other target stage d apart ∙ at_stage) in
      elim (Bool-cases (v.replace_works target tombstone)) [
        | inr fails ↦ simp (replace_folder-fails v target tombstone d fails) at_target
        | inl first ↦ elim (Bool-cases (v.replace_works stage target)) [
          | inl second ↦
              simp
                (
                  replace_folder-works v target tombstone t d at_target first,
                  replace_folder-works v stage target a displaced staged second,
                )
                (lookup-put target a (remove stage displaced))
          | inr fails ↦
              simp
                (
                  replace_folder-works v target tombstone t d at_target first,
                  replace_folder-fails v stage target displaced fails,
                  replace_folder-works v tombstone target t displaced
                      (lookup-put tombstone t (remove target d)) back,
                )
                (lookup-put target t (remove tombstone displaced))
        ]
      ]
