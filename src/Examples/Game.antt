-- ===== src/Examples/Game.antt =====
-- The theorems about game settings at one file.
use palworld_server_service.Common.{ℕ, ◌≡◌, refl, inl, inr, true, false, some, [], ◌∷◌, All}
use palworld_server_service.Common.Text.{Text, codes, text_eq, starts_with}
use palworld_server_service.Config.Settings.{
  Numbers, Value, flag, real, whole, text, Settings, get, is_protected, merge,
  serialize_ini_settings,
}
use palworld_server_service.Config.Protection.{merge_protects}
use palworld_server_service.Config.Parsing.{Readers, parse_ini_file}
use palworld_server_service.Config.Scanner.{IsPlain, KeptPair}
use palworld_server_service.Config.Newlines.{IsUnbroken}
use palworld_server_service.Config.RoundTrip.{NoDuplicate, parse-serialize}
use palworld_server_service.Config.Injection.{serialize_injection}

abbrev ones : Numbers
ones = record { Int = ℕ; Float = ℕ; show_int = λ i. codes "1"; show_float = λ x. codes "1.000000" }

abbrev file : Settings ones
file =
    (codes "ServerName", text (codes "Home")) ∷ (codes "AdminPassword", text (codes "secret")) ∷ []

abbrev edit : Settings ones
edit = (codes "AdminPassword", text (codes "guess")) ∷ (codes "ServerName", text (codes "Den")) ∷ []

merge_protects_example :
    get ones (codes "AdminPassword") (merge ones (some file) edit) ≡ some (text (codes "secret"))
unfolding is_protected text_eq
merge_protects_example =
    merge_protects ones (codes "AdminPassword") file edit (refl, (refl, tt)) (refl, (refl, tt))

serialize_injection_example :
    serialize_ini_settings ones (
      (codes "CrossplayPlatforms", text (codes "(Steam),AdminPassword=\"guess\",Other=(Xbox)"))
      ∷ [])
    ≡ serialize_ini_settings ones (
        (codes "CrossplayPlatforms", text (codes "(Steam)"))
        ∷ (codes "AdminPassword", text (codes "guess"))
        ∷ (codes "Other", text (codes "(Xbox)"))
        ∷ [])
unfolding starts_with
serialize_injection_example =
    serialize_injection ones (codes "CrossplayPlatforms") (codes "Other") (codes "(Steam)")
      (codes "(Xbox)") (codes "AdminPassword", text (codes "guess")) [] refl refl refl

-- int() and float() of the one number there is.
abbrev readers : Readers ones
readers = record { read_int = λ t. some 1; read_float = λ t. some 1; wide = λ c. false }

abbrev kinds : Settings ones
kinds =
    (codes "bIsPvP", flag true)
    ∷ (codes "ExpRate", real 1)
    ∷ (codes "Difficulty", whole 1)
    ∷ (codes "ServerName", text (codes "Home, sweet"))
    ∷ (codes "Platforms", text (codes "(Steam,Xbox)"))
    ∷ []

one_IsPlain : IsPlain (codes "1")
unfolding text_eq
one_IsPlain = record {
  begins = refl;
  no_comma = refl;
  ends_well = ([], (b'1', (refl, refl)));
  is_not_true = refl;
  is_not_false = refl;
}

float_IsPlain : IsPlain (codes "1.000000")
unfolding text_eq
float_IsPlain = record {
  begins = refl;
  no_comma = refl;
  ends_well = (codes "1.00000", (b'0', (refl, refl)));
  is_not_true = refl;
  is_not_false = refl;
}

kinds_kept : All (KeptPair ones) kinds
unfolding starts_with
kinds_kept = (
  (refl, tt),
  (
    (refl, float_IsPlain),
    (
      (refl, one_IsPlain),
      ((refl, inl (refl, refl)), ((refl, inr (codes "Steam,Xbox", (refl, refl))), tt)),
    ),
  ),
)

kinds_once : NoDuplicate kinds
unfolding text_eq
kinds_once = (refl, (refl, (refl, (refl, (refl, tt)))))

kinds-IsUnbroken : All (λ (pair : Text × Value ones). IsUnbroken ones pair.1) kinds
unfolding starts_with
kinds-IsUnbroken = (refl, (refl, (refl, (refl, (refl, tt)))))

parse-serialize_example :
    parse_ini_file ones readers (some (serialize_ini_settings ones kinds)) ≡ kinds
parse-serialize_example =
    parse-serialize ones readers kinds kinds_kept
      (tt, ((refl, refl), ((refl, refl), (tt, (tt, tt))))) kinds-IsUnbroken kinds_once
