-- ===== src/Deploy/Members.antt =====
-- `_validate_tar_member` (app/engine/deployer.py). A path is the list of its components; `resolve`
-- is the file system's, and gives nothing where it raises.
use palworld_server_service.Common.{
  Bool, true, false, ◌&&◌, ◌||◌, not, Option, none, some, List, [], ◌∷◌, ◌++◌, any_where,
  keep_where, if◌then◌else◌,
}
use palworld_server_service.Common.Text.{Text, codes, text_eq, starts_with, split_on, is_code}
use palworld_server_service.Common.Outcome.{Outcome, ok, err, value_error}

pub record TarInfo : Type 0 where
  pub name : Text
  -- issym() or islnk()
  pub is_link : Bool
  pub linkname : Text

abbrev pub Parts : Type 0
Parts = List Text

abbrev is_named : Text → Bool
is_named part = not (text_eq part []) && not (text_eq part (codes "."))

-- Path(name).parts of a relative path
unfoldable pub parts : Text → Parts
parts name = keep_where is_named (split_on 47 name)

abbrev pub is_rooted : Text → Bool
is_rooted name =
    starts_with (codes "/") name || starts_with (codes "\\") name || any_where (is_code 58) name

abbrev pub climbs : Parts → Bool
climbs = any_where (text_eq (codes ".."))

unfoldable pub is_relative_to : Parts → Parts → Bool
is_relative_to [] path = true
is_relative_to (r ∷ root) [] = false
is_relative_to (r ∷ root) (p ∷ path) = text_eq r p && is_relative_to root path

unfoldable pub parent : Parts → Parts
parent [] = []
parent (p ∷ []) = []
parent (p ∷ q ∷ path) = p ∷ parent (q ∷ path)

module _ (resolve : Parts → Option Parts) where
  abbrev pub link_inside : Parts → Option Parts → Outcome (Unit {0})
  link_inside root none = err value_error
  link_inside root (some link) = if is_relative_to root link then ok tt else err value_error

  abbrev pub validate_link : Parts → Parts → Text → Outcome (Unit {0})
  validate_link root target linkname =
      if is_rooted linkname || climbs (parts linkname)
      then err value_error
      else link_inside root (resolve (parent target ++ parts linkname))

  abbrev pub validate_target : Parts → TarInfo → Option Parts → Outcome (Unit {0})
  validate_target root member none = err value_error
  validate_target root member (some target) =
      if not (is_relative_to root target)
      then err value_error
      else if member.is_link
      then validate_link root target member.linkname
      else ok tt

  abbrev pub validate_beneath : Parts → TarInfo → Option Parts → Outcome (Unit {0})
  validate_beneath destination_root member none = err value_error
  validate_beneath destination_root member (some root) =
      validate_target root member (resolve (destination_root ++ parts member.name))

  unfoldable pub validate_tar_member : Parts → TarInfo → Outcome (Unit {0})
  validate_tar_member destination_root member =
      if is_rooted member.name || climbs (parts member.name)
      then err value_error
      else validate_beneath destination_root member (resolve destination_root)

  abbrev pub and_then : Outcome (Unit {0}) → Outcome (Unit {0}) → Outcome (Unit {0})
  and_then (ok u) next = next
  and_then (err e) next = err e

  unfoldable pub validate_members : Parts → List TarInfo → Outcome (Unit {0})
  validate_members destination_root [] = ok tt
  validate_members destination_root (member ∷ members) =
      and_then (validate_tar_member destination_root member)
        (validate_members destination_root members)
