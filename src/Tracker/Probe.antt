-- ===== src/Tracker/Probe.antt =====
-- The Steam query of app/monitoring/tracker.py: one exchange over a socket, the sweep over hosts and
-- ports, and the state the tracker keeps of it.
use palworld_server_service.Common.{
  ℕ, ◌==◌, Bool, true, false, ◌||◌, Option, none, some, List, [], ◌∷◌, ◌++◌, any_where,
  if◌then◌else◌,
}
use palworld_server_service.Common.Text.{Text, codes, text_eq}
use palworld_server_service.Tracker.Packet.{SteamA2SInfo, unresponsive, parse_a2s_packet}

-- What the network does with a datagram: the bytes that come back and the time they took, or
-- nothing where the socket times out or fails.
abbrev pub Network : Type 0
Network = Text → ℕ → List ℕ → Option (List ℕ × ℕ)

-- A2S_INFO_REQUEST
abbrev pub a2s_info_request : List ℕ
a2s_info_request = 255 ∷ 255 ∷ 255 ∷ 255 ∷ 84 ∷ (codes "Source Engine Query" ++ (0 ∷ []))

-- The four bytes of the challenge, where the reply is one.
abbrev pub challenge_of : List ℕ → Option (List ℕ)
challenge_of (a ∷ b ∷ c ∷ d ∷ kind ∷ e ∷ f ∷ g ∷ h ∷ rest) =
    if kind == 65 then some (e ∷ f ∷ g ∷ h ∷ []) else none
challenge_of _ = none

module _ (decode : List ℕ → Text) (network : Network) where
  abbrev pub if_responsive : SteamA2SInfo → Option SteamA2SInfo
  if_responsive parsed = if parsed.responsive then some parsed else none

  abbrev pub parsed_reply : ℕ → Option (List ℕ × ℕ) → Option SteamA2SInfo
  parsed_reply port none = none
  parsed_reply port (some (packet, latency)) =
      if_responsive (parse_a2s_packet decode packet (some latency) port)

  abbrev pub after_challenge : Text → ℕ → List ℕ × ℕ → Option (List ℕ) → Option SteamA2SInfo
  after_challenge ip port reply none = parsed_reply port (some reply)
  after_challenge ip port reply (some challenge) =
      parsed_reply port (network ip port (a2s_info_request ++ challenge))

  abbrev pub after_reply : Text → ℕ → Option (List ℕ × ℕ) → Option SteamA2SInfo
  after_reply ip port none = none
  after_reply ip port (some reply) = after_challenge ip port reply (challenge_of reply.0)

  unfoldable pub execute_a2s_socket_query : Text → ℕ → Option SteamA2SInfo
  execute_a2s_socket_query ip port = after_reply ip port (network ip port a2s_info_request)

  abbrev pub or_else : Option SteamA2SInfo → Option SteamA2SInfo → Option SteamA2SInfo
  or_else none next = next
  or_else (some info) next = some info

  unfoldable pub sweep_ports : Text → List ℕ → Option SteamA2SInfo
  sweep_ports ip [] = none
  sweep_ports ip (port ∷ ports) = or_else (execute_a2s_socket_query ip port) (sweep_ports ip ports)

  unfoldable pub sweep_candidates : List Text → List ℕ → Option SteamA2SInfo
  sweep_candidates [] ports = none
  sweep_candidates (ip ∷ ips) ports = or_else (sweep_ports ip ports) (sweep_candidates ips ports)

-- Candidate ports in their order, each once; `seen` are those before.
unfoldable pub probed_ports : List ℕ → List ℕ → List ℕ
probed_ports seen [] = []
probed_ports seen (p ∷ ports) =
    let rest = probed_ports (p ∷ seen) ports in
    let others = probed_ports seen ports in
    if any_where (λ q. q == p) seen then others else p ∷ rest

abbrev pub or_default_ports : ℕ → List ℕ → List ℕ
or_default_ports port [] = port ∷ 27015 ∷ 8211 ∷ []
or_default_ports port (c ∷ candidates) = c ∷ candidates

unfoldable pub target_hosts : Text → List Text
target_hosts host =
    if text_eq host [] || (text_eq host (codes "127.0.0.1") || text_eq host (codes "localhost"))
    then codes "127.0.0.1" ∷ []
    else codes "127.0.0.1" ∷ host ∷ []

-- self.a2s; an empty name stands for None, which the code tests for in the same way.
pub record A2SState : Type 0 where
  pub ping_ms : Option ℕ
  pub responsive : Bool
  pub server_name : Text
  pub map_name : Text
  pub players : ℕ
  pub max_players : ℕ
  pub query_port : ℕ

abbrev pub or_kept : Text → Text → Text
or_kept [] kept = kept
or_kept (c ∷ t) kept = c ∷ t

unfoldable pub note_probe : ℕ → Option SteamA2SInfo → A2SState → SteamA2SInfo × A2SState
note_probe port none s = (unresponsive port, record s { responsive = false; ping_ms = none })
note_probe port (some res) s = (
  res,
  record {
    ping_ms = res.ping_ms;
    responsive = true;
    server_name = or_kept res.server_name s.server_name;
    map_name = or_kept res.map_name s.map_name;
    players = res.players;
    max_players = res.max_players;
    query_port = res.query_port;
  },
)

unfoldable pub probe_steam_a2s_info :
    (List ℕ → Text) → Network → Text → ℕ → List ℕ → A2SState → SteamA2SInfo × A2SState
probe_steam_a2s_info decode network host port candidate_ports s =
    note_probe port
      (sweep_candidates decode network (target_hosts host)
        (probed_ports [] (or_default_ports port candidate_ports)))
      s

-- _build_a2s_telemetry
unfoldable pub build_a2s_telemetry : Text → A2SState → SteamA2SInfo
build_a2s_telemetry own_name s = record {
  responsive = s.responsive;
  ping_ms = s.ping_ms;
  server_name = or_kept s.server_name own_name;
  map_name = or_kept s.map_name (codes "Pal/Maps/World");
  folder = codes "Pal";
  game = codes "Palworld";
  query_port = s.query_port;
  players = s.players;
  max_players = s.max_players;
}
