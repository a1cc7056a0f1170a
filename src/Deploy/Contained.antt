-- ===== src/Deploy/Contained.antt =====
-- What the checks of app/engine/deployer.py let through: members of an archive that stay beneath the
-- directory it is extracted in.
use mathlib.Core.List.{append_assoc, append-nil}
use palworld_server_service.Common.{
  ◌≡◌, refl, sym, ap, ◌∙◌, true, false, ◌||◌, not, Option, some, List, [], ◌∷◌, ◌++◌, arith,
  if◌then◌else◌, Bool-cases, inl, inr, All,
}
use palworld_server_service.Common.Text.{Text, codes, text_eq}
use palworld_server_service.Common.Outcome.{Outcome, Error, ok, err}
use palworld_server_service.Deploy.Members.{
  Parts, TarInfo, parts, is_rooted, climbs, is_relative_to, parent, validate_link, validate_target,
  validate_tar_member, validate_members, and_then,
}

-- Where a walk along the components ends: `..` goes up.
unfoldable pub walk : Parts → Parts → Parts
walk here [] = here
walk here (p ∷ path) = walk (if text_eq (codes "..") p then parent here else here ++ p ∷ []) path

-- Names and link targets as the file system follows them: a name from the root, a link from the
-- directory of its member.
abbrev pub StaysInside : Parts → TarInfo → Type 0
StaysInside root member =
    let place = walk root (parts member.name) in
    (is_relative_to root place ≡ true)
    × ((not member.is_link || is_relative_to root (walk (parent place) (parts member.linkname)))
        ≡ true)

-- A file system with no symbolic links where the archive is extracted.
abbrev pub Lexical : (Parts → Option Parts) → Type 0
Lexical resolve = (path : Parts) → resolve path ≡ some (walk [] path)

walk-append : (path here more : Parts) → walk here (path ++ more) ≡ walk (walk here path) more
unfolding walk
walk-append [] here more = refl
walk-append (p ∷ path) here more = walk-append path _ more

walk-level : (path here : Parts) → climbs path ≡ false → walk here path ≡ here ++ path
unfolding walk
walk-level [] here h = sym (append-nil here)
walk-level (p ∷ path) here h =
    let level : text_eq (codes "..") p ≡ false = ground (arith, h) in
    let rest : climbs path ≡ false = ground (arith, h) in
    simp level (walk-level path (here ++ p ∷ []) rest ∙ append_assoc here (p ∷ []) path)

climbs-append :
    (path more : Parts) → climbs path ≡ false → climbs more ≡ false → climbs (path ++ more) ≡ false
climbs-append [] more h h' = h'
climbs-append (p ∷ path) more h h' = ground (arith, climbs-append path more)

climbs-parent : (path : Parts) → climbs path ≡ false → climbs (parent path) ≡ false
unfolding parent
climbs-parent [] h = refl
climbs-parent (p ∷ []) h = refl
climbs-parent (p ∷ q ∷ path) h = ground (arith, climbs-parent (q ∷ path))

refuses : {A : Type 0} {e : Error} {a : A} → err e ≡ ok a → ⊥
refuses h = ground arith

module _ (resolve : Parts → Option Parts) (lexical : Lexical resolve) where
  link-StaysInside :
      (root place : Parts) (linkname : Text)
      → climbs place ≡ false
      → validate_link resolve root place linkname ≡ ok tt
      → is_relative_to root (walk (parent place) (parts linkname)) ≡ true
  link-StaysInside root place linkname level accepted =
      let path : walk [] (parent place ++ parts linkname) ≡ walk (parent place) (parts linkname) =
        walk-append (parent place) [] (parts linkname)
        ∙ ap (λ t. walk t (parts linkname))
            (walk-level (parent place) [] (climbs-parent place level)) in
      let found = lexical (parent place ++ parts linkname) ∙ ap some path in
      elim (Bool-cases (is_rooted linkname || climbs (parts linkname))) [
        | inl refused ↦ absurd (refuses (simp refused at accepted))
        | inr passed ↦
            elim (Bool-cases (is_relative_to root (walk (parent place) (parts linkname)))) [
              | inl inside ↦ inside
              | inr outside ↦ absurd (refuses (simp (passed, found, outside) at accepted))
            ]
      ]

  target-StaysInside :
      (root : Parts) (member : TarInfo)
      → climbs root ≡ false
      → climbs (parts member.name) ≡ false
      → validate_target resolve root member (some (walk root (parts member.name))) ≡ ok tt
      → StaysInside root member
  target-StaysInside root member level flat accepted =
      let place = walk root (parts member.name) in
      let still : climbs place ≡ false =
        ap climbs (walk-level (parts member.name) root flat)
        ∙ climbs-append root (parts member.name) level flat in
      elim (Bool-cases (is_relative_to root place)) [
        | inr outside ↦ absurd (refuses (simp outside at accepted))
        | inl inside ↦ elim (Bool-cases member.is_link) [
          | inr plain ↦ (inside, simp plain refl)
          | inl link ↦ (
            inside,
            simp
                (
                  link,
                  link-StaysInside root place member.linkname still
                      (simp (inside, link) at accepted),
                )
                refl,
          )
        ]
      ]

  validate_tar_member-StaysInside :
      (root : Parts) (member : TarInfo)
      → climbs root ≡ false
      → validate_tar_member resolve root member ≡ ok tt
      → StaysInside root member
  unfolding validate_tar_member
  validate_tar_member-StaysInside root member level accepted =
      let here = lexical root ∙ ap some (walk-level root [] level) in
      let there : resolve (root ++ parts member.name) ≡ some (walk root (parts member.name)) =
        lexical (root ++ parts member.name)
        ∙ ap some (
            walk-append root [] (parts member.name)
            ∙ ap (λ t. walk t (parts member.name)) (walk-level root [] level)) in
      elim (Bool-cases (is_rooted member.name)) [
        | inl rooted ↦ absurd (refuses (simp rooted at accepted))
        | inr free ↦ elim (Bool-cases (climbs (parts member.name))) [
          | inl up ↦ absurd (refuses (simp (free, up) at accepted))
          | inr flat ↦
              target-StaysInside root member level flat (simp (free, flat, here, there) at accepted)
        ]
      ]

  -- Every member of an archive that passes the checks stays inside the root: its name leads beneath
  -- it, and where it is a link, so does its target from the member's directory. There is no `..` in
  -- the root's path and no symbolic link on the way.
  pub validate_members-StaysInside :
      (root : Parts) (members : List TarInfo)
      → climbs root ≡ false
      → validate_members resolve root members ≡ ok tt
      → All (StaysInside root) members
  unfolding validate_members
  validate_members-StaysInside root [] level accepted = tt
  validate_members-StaysInside root (member ∷ members) level accepted =
      from (validate_tar_member resolve root member) refl
        (validate_members-StaysInside root members level) accepted
    where
      from :
          (r : Outcome (Unit {0}))
          → validate_tar_member resolve root member ≡ r
          → (validate_members resolve root members ≡ ok tt → All (StaysInside root) members)
          → and_then resolve r (validate_members resolve root members) ≡ ok tt
          → All (StaysInside root) (member ∷ members)
      from (ok u) e more rest = (validate_tar_member-StaysInside root member level e, more rest)
      from (err x) e more rest = absurd (refuses rest)
