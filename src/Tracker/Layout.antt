-- ===== src/Tracker/Layout.antt =====
-- That `parse_a2s_packet` (app/monitoring/tracker.py) reads Valve's layout of an A2S_INFO reply.
use palworld_server_service.Common.{
  ℕ, ◌==◌, ◌≡◌, refl, true, false, Option, some, List, [], ◌∷◌, ◌++◌, arith, any_where,
}
use palworld_server_service.Common.Text.{Text, is_code}
use palworld_server_service.Tracker.Packet.{
  until_null, read_fields, player_counts, info_of, parse_a2s_packet,
}

-- A reply: the header, the protocol, four texts that end in a zero byte, the application's id in two
-- bytes, the players, their maximum, and what may follow.
abbrev pub a2s_reply : ℕ → List ℕ → List ℕ → List ℕ → List ℕ → ℕ → ℕ → ℕ → ℕ → List ℕ → List ℕ
a2s_reply protocol name map_name folder game low high players max_players more =
    255
    ∷ 255
    ∷ 255
    ∷ 255
    ∷ 73
    ∷ protocol
    ∷ (name
        ++ (0
            ∷ (map_name
                ++ (0
                    ∷ (folder
                        ++ (0 ∷ (game ++ (0 ∷ low ∷ high ∷ players ∷ max_players ∷ more))))))))

abbrev pub IsPlain : List ℕ → Type 0
IsPlain field = any_where (is_code 0) field ≡ false

until_null-append :
    (field rest : List ℕ) → IsPlain field → until_null (field ++ (0 ∷ rest)) ≡ some (field, rest)
unfolding until_null
until_null-append [] rest h = refl
until_null-append (b ∷ field) rest h =
    let other : (b == 0) ≡ false = ground (arith, h) in
    let plain : IsPlain field = ground (arith, h) in
    simp (other, until_null-append field rest plain) refl

-- A reply in Valve's layout, whose texts hold no zero byte, is read back: the texts decoded, the
-- counts of players, and the latency and port of the query.
pub parse-a2s_reply :
    (decode : List ℕ → Text) (protocol : ℕ) (name map_name folder game : List ℕ)
    (low high players max_players : ℕ) (more : List ℕ) (latency : Option ℕ) (port : ℕ)
    → IsPlain name
    → IsPlain map_name
    → IsPlain folder
    → IsPlain game
    → parse_a2s_packet decode
        (a2s_reply protocol name map_name folder game low high players max_players more)
        latency
        port
      ≡ record {
        responsive = true;
        ping_ms = latency;
        server_name = decode name;
        map_name = decode map_name;
        folder = decode folder;
        game = decode game;
        query_port = port;
        players = players;
        max_players = max_players;
      }
unfolding parse_a2s_packet read_fields info_of player_counts
parse-a2s_reply decode protocol name map_name folder game low high players max_players more latency
      port hn hm hf hg =
    simp
      (
        until_null-append name _ hn,
        until_null-append map_name _ hm,
        until_null-append folder _ hf,
        until_null-append game _ hg,
      )
      refl
