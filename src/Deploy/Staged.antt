-- ===== src/Deploy/Staged.antt =====
-- What `stage_release_package` (app/engine/deployer.py) leaves at its target.
use palworld_server_service.Common.{
  ℕ, ◌≡◌, refl, ap, ◌∙◌, true, false, Option, none, some, List, arith, All,
}
use palworld_server_service.Common.Text.{Text, text_eq}
use palworld_server_service.Common.Outcome.{Outcome, ok, err}
use palworld_server_service.Files.Paths.{lookup, put, lookup-put, lookup-put_other}
use palworld_server_service.Files.Folders.{Folders}
use palworld_server_service.Files.Staging.{Context, StagingHost}
use palworld_server_service.Files.Commits.{CanRollBack, Ended, with_staging-Ended, open_context}
use palworld_server_service.Deploy.Members.{Parts, TarInfo, validate_members, climbs}
use palworld_server_service.Deploy.Contained.{Lexical, StaysInside, validate_members-StaysInside}
use palworld_server_service.Deploy.Package.{
  file, Archive, extracted, extract_into, unpack, unpack_members, unpack_checked,
  stage_release_package,
}

module _ (A : Type 0) (empty : A) (resolve : Parts → Option Parts) (h : StagingHost A)
    (archive : Archive A empty resolve) (place : Text → Parts) (stage target : Text)
    (d : Folders A) where
  -- The archive could be read, and all its members stay inside the stage.
  abbrev pub Sound : Type 0
  Sound =
      (members : List TarInfo) × ((archive.getmembers ≡ ok members)
        × All (StaysInside (place stage)) members)

  -- Staged with nothing but what was extracted, or the target as it was.
  abbrev pub StagedOrKept : Outcome (Unit {0}) × Context A empty → Type 0
  StagedOrKept (ok u, c) = Sound × (lookup target c.folders ≡ some (archive.extractall empty).1)
  StagedOrKept (err e, c) = lookup target c.folders ≡ lookup target d

  abbrev Unpacked : Outcome (Unit {0}) × Folders A → Type 0
  Unpacked (ok u, f) =
      Sound
      × ((lookup stage f ≡ some (archive.extractall empty).1) × (lookup target f ≡ lookup target d))
  Unpacked (err e, f) = lookup target f ≡ lookup target d

  tree-Unpacked :
      (x : Outcome (Unit {0}) × A) (f : Folders A)
      → x.1 ≡ (archive.extractall empty).1
      → text_eq stage target ≡ false
      → lookup target f ≡ lookup target d
      → Sound
      → Unpacked (extracted A empty resolve stage x f)
  tree-Unpacked (ok u, tree) f e apart same sound = (
    sound,
    (lookup-put stage tree f ∙ ap some e, lookup-put_other stage target tree f apart ∙ same),
  )
  tree-Unpacked (err x, tree) f e apart same sound =
      lookup-put_other stage target tree f apart ∙ same

  extracted-Unpacked :
      (o : Option A) (f : Folders A)
      → o ≡ some empty
      → text_eq stage target ≡ false
      → lookup target f ≡ lookup target d
      → Sound
      → Unpacked (extract_into A empty resolve archive stage o f)
  extracted-Unpacked none f at apart same sound = same
  extracted-Unpacked (some tree) f at apart same sound =
      let whole : tree ≡ empty = ground arith in
      tree-Unpacked (archive.extractall tree) f (ap (λ t. (archive.extractall t).1) whole) apart
        same sound

  checked-Unpacked :
      (r : Outcome (Unit {0})) (members : List TarInfo)
      → validate_members resolve (place stage) members ≡ r
      → archive.getmembers ≡ ok members
      → Lexical resolve
      → climbs (place stage) ≡ false
      → text_eq stage target ≡ false
      → Unpacked (unpack_checked A empty resolve archive stage r (put stage empty d))
  checked-Unpacked (err x) members e read lexical level apart =
      lookup-put_other stage target empty d apart
  checked-Unpacked (ok u) members e read lexical level apart =
      extracted-Unpacked (lookup stage (put stage empty d)) (put stage empty d)
        (lookup-put stage empty d) apart (lookup-put_other stage target empty d apart)
        (
          members,
          (read, validate_members-StaysInside resolve lexical (place stage) members level e),
        )

  read-Unpacked :
      (r : Outcome (List TarInfo))
      → archive.getmembers ≡ r
      → Lexical resolve
      → climbs (place stage) ≡ false
      → text_eq stage target ≡ false
      → Unpacked (unpack_members A empty resolve archive place stage r (put stage empty d))
  read-Unpacked (err x) e lexical level apart = lookup-put_other stage target empty d apart
  read-Unpacked (ok members) e lexical level apart =
      checked-Unpacked _ members refl e lexical level apart

  ends :
      (b : Outcome (Unit {0}) × Folders A) (x : Outcome (Unit {0}) × Context A empty)
      → Unpacked b
      → Ended A empty h stage target b.0 (lookup stage b.1) (lookup target b.1) x
      → StagedOrKept x
  ends (ok u, f) (ok w, c) facts e = (facts.0, e ∙ facts.1.0)
  ends (ok u, f) (err x, c) facts e = e ∙ facts.1.1
  ends (err x, f) (ok w, c) facts e = absurd (ground (arith, e.0))
  ends (err x, f) (err y, c) facts e = e.1 ∙ facts

  -- Staging a package that is a file ends with the target made of what was extracted, of an archive
  -- all of whose members stay inside, or raises and leaves the target as it was. The stage could be
  -- made, its path has no `..` and no symbolic link, the names of stage, target and tombstone
  -- differ, and the rename that rolls a swap back works.
  pub stage_release_package-StagedOrKept :
      (bytes : List ℕ)
      → h.mkdir_works ≡ true
      → h.mkdtemp ≡ some stage
      → CanRollBack A h stage target
      → Lexical resolve
      → climbs (place stage) ≡ false
      → StagedOrKept (
          stage_release_package A empty resolve h
            (file bytes)
            archive
            place
            (record (open_context A empty h stage target d) { stage_dir = none }))
  unfolding stage_release_package unpack
  stage_release_package-StagedOrKept bytes can_make made can lexical level =
      ends _ _ (read-Unpacked archive.getmembers refl lexical level can.stage_apart) (
        with_staging-Ended A empty h stage target (unpack A empty resolve archive place) d can_make
          made can)
