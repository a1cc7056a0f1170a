-- ===== src/Config/Parsing.antt =====
-- `parse_ini_file` (app/config_manager/parser.py): the text of OptionSettings, and the regular
-- expression that its pairs match, as a scanner. Python's int() and float() are parameters, and so is
-- which letters beyond ASCII count as word characters.
use palworld_server_service.Common.{
  ℕ, zero, suc, leb, ◌==◌, Bool, true, false, ◌&&◌, ◌||◌, not, Option, none, some, List, [], ◌∷◌,
  ◌++◌, length, drop, any_where, if◌then◌else◌,
}
use palworld_server_service.Common.Text.{Text, codes, text_eq, starts_with, strip, is_code}
use palworld_server_service.Config.Settings.{
  Numbers, Value, flag, real, whole, text, Settings, assign,
}

-- \w
abbrev pub is_ascii_word : ℕ → Bool
is_ascii_word c =
    ((leb 97 c && leb c 122) || (leb 65 c && leb c 90)) || ((leb 48 c && leb c 57) || c == 95)

abbrev pub is_word : (ℕ → Bool) → ℕ → Bool
is_word wide c = is_ascii_word c || (leb 128 c && wide c)

-- The longest beginning whose characters pass, and what follows.
unfoldable pub span : (ℕ → Bool) → Text → Text × Text
span passes [] = ([], [])
span passes (c ∷ t) =
    let (w, rest) = span passes t in if passes c then (c ∷ w, rest) else ([], c ∷ t)

-- Up to the first character d, which is taken with it.
abbrev pub closed_by : Text × Text → Option (Text × Text)
closed_by (inside, []) = none
closed_by (inside, d ∷ rest) = some (inside, rest)

abbrev pub up_to : ℕ → Text → Option (Text × Text)
up_to d t = closed_by (span (λ c. not (c == d)) t)

-- What a group of the expression captured.
pub data Token : Type 0 where
  quoted_token : Text → Token
  bracketed_token : Text → Token
  plain_token : Text → Token

-- [^,]+
abbrev pub plain_of : Text × Text → Option (Token × Text)
plain_of ([], rest) = none
plain_of (c ∷ t, rest) = some (plain_token (c ∷ t), rest)

abbrev pub plain_match : Text → Option (Token × Text)
plain_match t = plain_of (span (λ c. not (c == b',')) t)

abbrev pub or_plain : (Text → Token) → Text → Option (Text × Text) → Option (Token × Text)
or_plain token t none = plain_match t
or_plain token t (some (inside, rest)) = some (token inside, rest)

-- "([^"]*)"|(\([^)]*\))|([^,]+), the first alternative that matches
unfoldable pub value_match : Text → Option (Token × Text)
value_match [] = none
value_match (c ∷ t) =
    if c == b'"'
    then or_plain quoted_token (c ∷ t) (up_to b'"' t)
    else if c == b'('
    then or_plain (λ inside. bracketed_token (b'(' ∷ (inside ++ (b')' ∷ [])))) (c ∷ t)
        (up_to b')' t)
    else plain_match (c ∷ t)

abbrev pub with_key : Text → Option (Token × Text) → Option ((Text × Token) × Text)
with_key key none = none
with_key key (some (token, rest)) = some ((key, token), rest)

-- (\w+)=, which takes all the word characters there are, since = is none.
abbrev pub key_match : Text × Text → Option ((Text × Token) × Text)
key_match ([], rest) = none
key_match (k ∷ key, []) = none
key_match (k ∷ key, c ∷ rest) = if c == b'=' then with_key (k ∷ key) (value_match rest) else none

unfoldable pub pair_match : (ℕ → Bool) → Text → Option ((Text × Token) × Text)
pair_match wide t = key_match (span (is_word wide) t)

abbrev pub next_match :
    (Text → List (Text × Token)) → Text → Option ((Text × Token) × Text) → List (Text × Token)
next_match more t none = more t
next_match more t (some (pair, rest)) = pair ∷ more rest

-- finditer: from each position on, the next match, on fuel.
unfoldable pub find_pairs : (ℕ → Bool) → ℕ → Text → List (Text × Token)
find_pairs wide zero t = []
find_pairs wide (suc fuel) [] = []
find_pairs wide (suc fuel) (c ∷ t) = next_match (find_pairs wide fuel) t (pair_match wide (c ∷ t))

-- OptionSettings=\((.*)\): from the first beginning to the last bracket.
unfoldable pub after_first : Text → Text → Option Text
after_first prefix [] = none
after_first prefix (c ∷ t) =
    let rest = after_first prefix t in
    if starts_with prefix (c ∷ t) then some (drop (length prefix) (c ∷ t)) else rest

abbrev pub before_last : Bool → ℕ → Option Text → Option Text
before_last is_end c (some t) = some (c ∷ t)
before_last is_end c none = if is_end then some [] else none

unfoldable pub up_to_last : ℕ → Text → Option Text
up_to_last d [] = none
up_to_last d (c ∷ t) = before_last (c == d) c (up_to_last d t)

abbrev pub settings_from : Option Text → Option Text
settings_from none = none
settings_from (some t) = up_to_last b')' t

unfoldable pub option_settings : Text → Option Text
option_settings content = settings_from (after_first (codes "OptionSettings=(") content)

-- What read_text makes of a file's line ends: a carriage return, with the line feed after it if there
-- is one, becomes one line feed.
unfoldable pub universal_newlines : Text → Text
universal_newlines [] = []
universal_newlines (c ∷ t) =
    let rest = universal_newlines t in
    if c == b'\r' then (if starts_with (codes "\n") t then rest else b'\n' ∷ rest) else c ∷ rest

-- int() and float(), where they do not raise ValueError
pub record Readers (n : Numbers) : Type 0 where
  pub read_int : Text → Option n.Int
  pub read_float : Text → Option n.Float
  -- which letters beyond ASCII \w takes
  pub wide : ℕ → Bool

module _ (n : Numbers) (r : Readers n) where
  abbrev pub or_text : {A : Type 0} → (A → Value n) → Text → Option A → Value n
  or_text make raw none = text raw
  or_text make raw (some a) = make a

  abbrev pub has_dot : Text → Bool
  has_dot = any_where (is_code b'.')

  abbrev pub plain_value : Text → Value n
  plain_value raw_v =
      if text_eq raw_v (codes "True")
      then flag true
      else if text_eq raw_v (codes "False")
      then flag false
      else if has_dot raw_v
      then or_text real raw_v (r.read_float raw_v)
      else or_text whole raw_v (r.read_int raw_v)

  abbrev pub value_of : Token → Value n
  value_of (quoted_token t) = text t
  value_of (bracketed_token t) = text t
  value_of (plain_token t) = plain_value (strip t)

  -- tokens[k] = ..., for each match
  unfoldable pub assign_tokens : List (Text × Token) → Settings n → Settings n
  assign_tokens [] settings = settings
  assign_tokens ((k, token) ∷ pairs) settings =
      assign_tokens pairs (assign n k (value_of token) settings)

  abbrev pub settings_in : Option Text → Settings n
  settings_in none = []
  settings_in (some raw_str) =
      assign_tokens (find_pairs r.wide (suc (length (strip raw_str))) (strip raw_str)) []

  -- The file's decoded text, where it can be read.
  unfoldable pub parse_ini_file : Option Text → Settings n
  parse_ini_file none = []
  parse_ini_file (some content) = settings_in (option_settings (universal_newlines content))
