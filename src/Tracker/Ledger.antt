-- ===== src/Tracker/Ledger.antt =====
-- The ledger of players: `update_and_get_players` (app/monitoring/tracker.py). A dictionary is a list
-- in the order of insertion; numbers of a player are of any type with the defaults that the code
-- gives. An empty text stands for a missing one where the code tests for both at once.
use palworld_server_service.Common.{
  ℕ, Bool, true, false, Option, none, some, List, [], ◌∷◌, length, any_where, if◌then◌else◌,
}
use palworld_server_service.Common.Text.{Text, codes, text_eq}
use palworld_server_service.Files.Paths.{lookup}

module _ (Number : Type 0) (zero one : Number) where
  -- A player as the game's REST API gives it.
  pub record LivePlayer : Type 0 where
    pub player_id : Text
    pub user_id : Option Text
    pub name : Text
    pub account_name : Text
    pub level : Option Number
    pub ping : Option Number
    pub location_x : Option Number
    pub location_y : Option Number

  pub record LedgerEntry : Type 0 where
    pub user_id : Text
    pub name : Text
    pub first_seen : Text
    pub last_seen : Text
    pub level : Number
    pub ping : Number
    pub location_x : Number
    pub location_y : Number

  abbrev pub History : Type 0
  History = List (Text × LedgerEntry)

  pub record PlayerRow : Type 0 where
    pub id : Text
    pub entry : LedgerEntry
    pub is_online : Bool

  abbrev pub first_of : Text → Text → Text
  first_of [] other = other
  first_of (c ∷ t) other = c ∷ t

  abbrev pub or_value : {A : Type 0} → Option A → A → A
  or_value none default = default
  or_value (some a) default = a

  abbrev pub id_of : LivePlayer → Text
  id_of p = first_of p.player_id (first_of (or_value p.user_id []) (codes "Unknown"))

  abbrev pub name_of : LivePlayer → Text
  name_of p = first_of p.name (first_of p.account_name (codes "Tamer"))

  abbrev pub seen_entry : Text → LivePlayer → Option LedgerEntry → LedgerEntry
  seen_entry now p none = record {
    user_id = or_value p.user_id [];
    name = name_of p;
    first_seen = now;
    last_seen = now;
    level = or_value p.level one;
    ping = or_value p.ping zero;
    location_x = or_value p.location_x zero;
    location_y = or_value p.location_y zero;
  }
  seen_entry now p (some r) = record r {
    name = name_of p;
    last_seen = now;
    level = or_value p.level r.level;
    ping = or_value p.ping r.ping;
    location_x = or_value p.location_x r.location_x;
    location_y = or_value p.location_y r.location_y;
  }

  -- players_history[pid] = entry
  unfoldable pub keep_entry : Text → LedgerEntry → History → History
  keep_entry pid r [] = (pid, r) ∷ []
  keep_entry pid r ((q, old) ∷ d) =
      let rest = keep_entry pid r d in if text_eq q pid then (q, r) ∷ d else (q, old) ∷ rest

  abbrev pub entry_now : Text → LivePlayer → History → LedgerEntry
  entry_now now p d = seen_entry now p (lookup (id_of p) d)

  abbrev pub after_player : Text → LivePlayer → History → History
  after_player now p d = keep_entry (id_of p) (entry_now now p d) d

  abbrev pub online_row : Text → LivePlayer → History → PlayerRow
  online_row now p d = record { id = id_of p; entry = entry_now now p d; is_online = true }

  -- The loop over the live players: the ledger after it, and active_list.
  unfoldable pub merge_live_players : Text → List LivePlayer → History → History × List PlayerRow
  merge_live_players now [] d = (d, [])
  merge_live_players now (p ∷ players) d =
      let (d', rows) = merge_live_players now players (after_player now p d) in
      (d', online_row now p d ∷ rows)

  abbrev pub is_active : Text → List LivePlayer → Bool
  is_active pid = any_where (λ p. text_eq (id_of p) pid)

  abbrev pub offline_row : Text → LedgerEntry → PlayerRow
  offline_row pid r = record { id = pid; entry = record r { ping = zero }; is_online = false }

  -- The loop over the ledger
  unfoldable pub offline_players : List LivePlayer → History → List PlayerRow
  offline_players players [] = []
  offline_players players ((pid, r) ∷ d) =
      let rest = offline_players players d in
      if is_active pid players then rest else offline_row pid r ∷ rest

  pub record PlayerLedgerMatrix : Type 0 where
    pub active_count : ℕ
    pub total_registered : ℕ
    pub active_players : List PlayerRow
    pub offline_players : List PlayerRow

  unfoldable pub matrix_of : List LivePlayer → History × List PlayerRow → PlayerLedgerMatrix
  matrix_of players (d, rows) = record {
    active_count = length rows;
    total_registered = length d;
    active_players = rows;
    offline_players = offline_players players d;
  }

  unfoldable pub update_and_get_players :
      Text → List LivePlayer → History → PlayerLedgerMatrix × History
  update_and_get_players now live_players_raw d =
      let merged = merge_live_players now live_players_raw d in
      (matrix_of live_players_raw merged, merged.0)
