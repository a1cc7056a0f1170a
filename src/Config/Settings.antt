-- ===== src/Config/Settings.antt =====
-- Game settings: the separation and merge of `ConfigPipeline` (app/config_manager/pipeline.py) and
-- the text that `serialize_ini_settings` writes (app/config_manager/parser.py). A dictionary is a
-- list of pairs in the order of insertion.
use palworld_server_service.Common.{
  Bool, true, ◌&&◌, not, Option, none, some, List, [], ◌∷◌, ◌++◌, map, if◌then◌else◌, any_where,
  keep_where,
}
use palworld_server_service.Common.Text.{Text, codes, text_eq, starts_with, join_on}
use mathlib.Core.List.{reverse}

-- Python's numbers and how it prints them: str of an int, and six decimals of a float.
pub record Numbers : Type 1 where
  pub Int : Type 0
  pub Float : Type 0
  pub show_int : Int → Text
  pub show_float : Float → Text

abbrev pub protected_admin_keys : List Text
protected_admin_keys =
    codes "AdminPassword"
    ∷ codes "ServerPassword"
    ∷ codes "BanListURL"
    ∷ codes "PublicPort"
    ∷ codes "PublicIP"
    ∷ codes "RCONEnabled"
    ∷ codes "RCONPort"
    ∷ codes "RESTAPIEnabled"
    ∷ codes "RESTAPIPort"
    ∷ codes "bUseAuth"
    ∷ []

unfoldable pub is_protected : Text → Bool
is_protected key = any_where (text_eq key) protected_admin_keys

module _ (n : Numbers) where
  -- `other` is the text of a value of any other type.
  pub data Value : Type 0 where
    flag : Bool → Value
    real : n.Float → Value
    whole : n.Int → Value
    text : Text → Value
    other : Text → Value

  abbrev pub Settings : Type 0
  Settings = List (Text × Value)

  abbrev pub get : Text → Settings → Option Value
  get key [] = none
  get key ((k, v) ∷ rest) = if text_eq k key then some v else get key rest

  -- settings[key] = value
  abbrev pub assign : Text → Value → Settings → Settings
  assign key value [] = (key, value) ∷ []
  assign key value ((k, v) ∷ rest) =
      if text_eq k key then (k, value) ∷ rest else (k, v) ∷ assign key value rest

  -- A loop that assigns the items whose key passes.
  abbrev pub assign_where : (Text → Bool) → Settings → Settings → Settings
  assign_where passes [] settings = settings
  assign_where passes ((k, v) ∷ items) settings =
      assign_where passes items (if passes k then assign k v settings else settings)

  abbrev pub key_is : (Text → Bool) → Text × Value → Bool
  key_is passes (k, v) = passes k

  -- read_to_json: the public and the protected view
  unfoldable pub read_to_json : Settings → Settings × Settings
  read_to_json full_state = (
    keep_where (key_is (λ k. not (is_protected k))) full_state,
    keep_where (key_is is_protected) full_state,
  )

  -- get_public_view, of the parsed file where it exists
  unfoldable pub get_public_view : Option Settings → Settings
  get_public_view none = []
  get_public_view (some full_state) = (read_to_json full_state).0

  abbrev pub merge_live : Settings → Settings → Settings → Settings
  merge_live live_full live_protected incoming =
      assign_where (λ k. true) live_protected
        (assign_where (λ k. not (is_protected k)) incoming live_full)

  -- The dictionary that merge_and_serialize serializes, from the parsed file where it exists.
  unfoldable pub merge : Option Settings → Settings → Settings
  merge none incoming = merge_live [] [] incoming
  merge (some live) incoming = merge_live live (read_to_json live).1 incoming

  abbrev pub ends_with : Text → Text → Bool
  ends_with suffix t = starts_with (reverse suffix) (reverse t)

  abbrev pub quoted : Text → Text
  quoted t = b'"' ∷ t ++ b'"' ∷ []

  abbrev pub show_value : Value → Text
  show_value (flag b) = if b then codes "True" else codes "False"
  show_value (real x) = n.show_float x
  show_value (whole i) = n.show_int i
  show_value (text t) = if starts_with (codes "(") t && ends_with (codes ")") t then t else quoted t
  show_value (other t) = quoted t

  abbrev pub show_pair : Text × Value → Text
  show_pair (k, v) = k ++ b'=' ∷ show_value v

  unfoldable pub serialize_ini_settings : Settings → Text
  serialize_ini_settings settings =
      codes "[/Script/Pal.PalGameWorldSettings]\nOptionSettings=("
      ++ join_on b',' (map show_pair settings)
      ++ codes ")\n"

  unfoldable pub merge_and_serialize : Option Settings → Settings → Text
  merge_and_serialize live incoming = serialize_ini_settings (merge live incoming)
