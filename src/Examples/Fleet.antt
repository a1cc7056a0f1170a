-- ===== src/Examples/Fleet.antt =====
-- The theorems about players, Steam replies, updates and logs, at two players, one reply, one host and
-- two lines.
use palworld_server_service.Common.{
  ℕ, ◌≤◌, ◌==◌, ◌≡◌, refl, true, not, Option, none, some, List, [], ◌∷◌, ◌++◌, length, arith, All,
  if◌then◌else◌,
}
use palworld_server_service.Common.Text.{Text, codes, text_eq}
use palworld_server_service.Common.Outcome.{ok}
use palworld_server_service.Files.Paths.{lookup}
use palworld_server_service.Tracker.Packet.{parse_a2s_packet}
use palworld_server_service.Tracker.Layout.{a2s_reply, parse-a2s_reply}
use palworld_server_service.Tracker.Ledger.{
  LivePlayer, LedgerEntry, is_active, update_and_get_players,
}
use palworld_server_service.Tracker.Remembered.{
  Remembered, is_listed, update_and_get_players-Remembered,
}
use palworld_server_service.Updater.Apply.{
  no_loop, UpdateHost, Watcher, is_branch_name, apply_update,
}
use palworld_server_service.Updater.Locks.{
  Event, asked, exited, InWindow, run_all, one_deployment, update_never_starts,
}
use palworld_server_service.Updater.Steps.{contains_text}
use palworld_server_service.Logs.Console.{TextTools, clamp, read_server_logs}
use palworld_server_service.Logs.Shown.{IsShowable, read_server_logs-IsShowable}
use palworld_server_service.Updater.Bounds.{progress, completed_steps, progress_bounds}

parse-a2s_reply_example :
    parse_a2s_packet
      (λ bytes. bytes)
      (a2s_reply 17 (codes "Pals") (codes "World") (codes "Pal") (codes "Palworld") 0 0 5 32 [])
      (some 120)
      27015
    ≡ record {
      responsive = true;
      ping_ms = some 120;
      server_name = codes "Pals";
      map_name = codes "World";
      folder = codes "Pal";
      game = codes "Palworld";
      query_port = 27015;
      players = 5;
      max_players = 32;
    }
parse-a2s_reply_example =
    parse-a2s_reply (λ bytes. bytes) 17 (codes "Pals") (codes "World") (codes "Pal")
      (codes "Palworld") 0 0 5 32 [] (some 120) 27015 refl refl refl refl

abbrev lamball : LedgerEntry ℕ 0 1
lamball = record {
  user_id = codes "steam_1";
  name = codes "Lamball";
  first_seen = codes "2025-01-01";
  last_seen = codes "2025-01-02";
  level = 7;
  ping = 30;
  location_x = 0;
  location_y = 0;
}

abbrev live : List (LivePlayer ℕ 0 1)
live =
    record {
      player_id = codes "B";
      user_id = none;
      name = codes "Cattiva";
      account_name = [];
      level = some 3;
      ping = none;
      location_x = none;
      location_y = none;
    }
    ∷ []

update_and_get_players-Remembered_example :
    Remembered ℕ 0 1 lamball (
      lookup
        (codes "A")
        (update_and_get_players ℕ 0 1 (codes "2025-01-03") live ((codes "A", lamball) ∷ [])).1)
    × ((is_listed ℕ 0 1
            (codes "A")
            (update_and_get_players ℕ 0 1
              (codes "2025-01-03")
              live
              ((codes "A", lamball) ∷ [])).0.active_players
          ≡ is_active ℕ 0 1 (codes "A") live)
        × (is_listed ℕ 0 1
              (codes "A")
              (update_and_get_players ℕ 0 1
                (codes "2025-01-03")
                live
                ((codes "A", lamball) ∷ [])).0.offline_players
            ≡ not (is_active ℕ 0 1 (codes "A") live)))
unfolding lookup text_eq
update_and_get_players-Remembered_example =
    update_and_get_players-Remembered ℕ 0 1 (codes "2025-01-03") live ((codes "A", lamball) ∷ [])
      (codes "A") lamball refl

-- A host where a deployment starts, and the host as it is on POSIX.
abbrev runner_host : UpdateHost
runner_host = record {
  now = 1000;
  stat_works = true;
  unlink_works = true;
  lock_works = true;
  command_runner = some true;
  script_is_file = true;
  deploy_log_opens = true;
  is_posix = true;
  worker_loop = no_loop;
  popen_works = true;
}

abbrev posix_host : UpdateHost
posix_host = record runner_host { command_runner = none }

abbrev watcher : Watcher
watcher = record { branch = codes "main"; lock_file = none; running = [] }

-- The first deployment ends before the third call.
abbrev calls : List Event
calls =
    asked runner_host none
    ∷ asked (record runner_host { now = 2000 }) (some (codes "dev"))
    ∷ exited true
    ∷ asked (record runner_host { now = 3000 }) none
    ∷ []

in_window : All (InWindow 1000) calls
in_window = (
  (omega arith, (omega arith, (refl, refl))),
  (
    (omega arith, (omega arith, (refl, refl))),
    (tt, ((omega arith, (omega arith, (refl, refl))), tt)),
  ),
)

one_deployment_example : length (run_all calls watcher).running ≤ 1
one_deployment_example = one_deployment 1000 calls watcher refl refl in_window

update_never_starts_example :
    apply_update posix_host none watcher ≡ (ok tt, record watcher { lock_file = some 1000 })
unfolding is_branch_name text_eq
update_never_starts_example =
    update_never_starts posix_host none watcher refl refl refl refl refl refl refl refl

abbrev step_line : Text → Option ℕ
step_line line = if text_eq line (codes "[1/5] Pulling [ OK ]") then some 1 else none

abbrev float_of : Text → Option ℕ
float_of t = none

abbrev log : List Text
log = codes "[1/5] Pulling [ OK ]" ∷ []

progress_bounds_example :
    ((1 ≤ (progress step_line float_of 100 [] log none).current_step)
      × ((progress step_line float_of 100 [] log none).current_step ≤ 5))
    × ((5 ≤ (progress step_line float_of 100 [] log none).percentage)
        × (((progress step_line float_of 100 [] log none).percentage ≤ 100)
            × (((progress step_line float_of 100 [] log none).percentage == 100)
                ≡ (length (completed_steps step_line float_of 100 [] log none) == 5))))
progress_bounds_example = progress_bounds step_line float_of 100 [] log none

abbrev tools : TextTools
tools = record {
  lower = λ t. t;
  search = λ query line. some (contains_text query line);
  sanitize_log_text = λ t. codes "> " ++ t;
}

abbrev pal_log : List Text
pal_log = codes "Server started\n" ∷ codes "Steam ready\n" ∷ []

read_server_logs-IsShowable_example :
    (length
        (read_server_logs tools 5 (some (codes "Steam")) (codes "ALL") (some pal_log ∷ []) []).lines
      ≤ 2000)
    × ((length
            (read_server_logs tools 5
              (some (codes "Steam"))
              (codes "ALL")
              (some pal_log ∷ [])
              []).lines
          ≤ clamp tools 5)
        × All
            (IsShowable tools (some (codes "Steam")) (codes "ALL"))
            (read_server_logs tools 5
              (some (codes "Steam"))
              (codes "ALL")
              (some pal_log ∷ [])
              []).lines)
read_server_logs-IsShowable_example =
    read_server_logs-IsShowable tools (some (codes "Steam")) (codes "ALL") 5 (some pal_log ∷ []) []
