-- ===== src/Tracker/Packet.antt =====
-- `parse_a2s_packet` (app/monitoring/tracker.py). A packet is a list of bytes; the offset into it is
-- what remains to be read. Latencies are in tenths of a millisecond.
use palworld_server_service.Common.{
  ℕ, zero, suc, ◌==◌, Bool, true, false, ◌&&◌, Option, none, some, List, [], ◌∷◌, if◌then◌else◌,
}
use palworld_server_service.Common.Text.{Text, codes}

pub record SteamA2SInfo : Type 0 where
  pub responsive : Bool
  pub ping_ms : Option ℕ
  pub server_name : Text
  pub map_name : Text
  pub folder : Text
  pub game : Text
  pub query_port : ℕ
  pub players : ℕ
  pub max_players : ℕ

abbrev pub unresponsive : ℕ → SteamA2SInfo
unresponsive query_port = record {
  responsive = false;
  ping_ms = none;
  server_name = [];
  map_name = [];
  folder = [];
  game = [];
  query_port = query_port;
  players = 0;
  max_players = 32;
}

abbrev pub read_on : ℕ → List ℕ × List ℕ → List ℕ × List ℕ
read_on b (field, rest) = (b ∷ field, rest)

abbrev pub read_next : Bool → ℕ → List ℕ → Option (List ℕ × List ℕ) → Option (List ℕ × List ℕ)
read_next true b bs found = some ([], bs)
read_next false b bs none = none
read_next false b bs (some found) = some (read_on b found)

-- Up to the next zero byte, and what follows it: data.find(b"\x00", offset).
unfoldable pub until_null : List ℕ → Option (List ℕ × List ℕ)
until_null [] = none
until_null (b ∷ bs) = read_next (b == 0) b bs (until_null bs)

abbrev pub field_or : ℕ → Text → List Text → Text
field_or i default [] = default
field_or zero default (f ∷ fields) = f
field_or (suc i) default (f ∷ fields) = field_or i default fields

-- The bytes at offset + 2 and offset + 3.
unfoldable pub player_counts : List ℕ → ℕ × ℕ
player_counts (a ∷ b ∷ players ∷ max_players ∷ rest) = (players, max_players)
player_counts _ = (0, 32)

module _ (decode : List ℕ → Text) where
  abbrev pub add_field : List ℕ → List Text × List ℕ → List Text × List ℕ
  add_field field (fields, rest) = (decode field ∷ fields, rest)

  -- The loop that reads at most so many fields and stops where no zero byte is left.
  abbrev pub read_found :
      (List ℕ → List Text × List ℕ) → List ℕ → Option (List ℕ × List ℕ) → List Text × List ℕ
  read_found more offset none = ([], offset)
  read_found more offset (some (field, rest)) = add_field field (more rest)

  unfoldable pub read_fields : ℕ → List ℕ → List Text × List ℕ
  read_fields zero offset = ([], offset)
  read_fields (suc n) offset = read_found (read_fields n) offset (until_null offset)

  unfoldable pub info_of : Option ℕ → ℕ → List Text × List ℕ → SteamA2SInfo
  info_of latency_ms query_port (fields, rest) = record {
    responsive = true;
    ping_ms = latency_ms;
    server_name = field_or 0 (codes "Palworld Dedicated Server") fields;
    map_name = field_or 1 (codes "Pal/Maps/World") fields;
    folder = field_or 2 (codes "Pal") fields;
    game = field_or 3 (codes "Palworld") fields;
    query_port = query_port;
    players = (player_counts rest).0;
    max_players = (player_counts rest).1;
  }

  abbrev pub is_reply : ℕ → ℕ → ℕ → ℕ → ℕ → Bool
  is_reply a b c d kind = (a == 255 && b == 255) && ((c == 255 && d == 255) && kind == 73)

  unfoldable pub parse_a2s_packet : List ℕ → Option ℕ → ℕ → SteamA2SInfo
  parse_a2s_packet (a ∷ b ∷ c ∷ d ∷ kind ∷ protocol ∷ rest) latency_ms query_port =
      if is_reply a b c d kind
      then info_of latency_ms query_port (read_fields 4 rest)
      else unresponsive query_port
  parse_a2s_packet _ latency_ms query_port = unresponsive query_port
