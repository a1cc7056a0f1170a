-- ===== src/Examples/Calls.antt =====
-- The theorems about the supervisor at one connection.
use palworld_server_service.Common.{
  pos, ℕ, String, ◌≡◌, refl, Bool, Option, none, some, List, [], ◌∷◌, All,
}
use palworld_server_service.Common.Text.{Text, codes}
use palworld_server_service.Supervisor.Protocol.{Pydantic, service_restart, service_allowed}
use palworld_server_service.Supervisor.Server.{
  Host, exited, restarted, handle, busy_for, handle_client, is_refused,
}
use palworld_server_service.Supervisor.Client.{Writer, returned, client_request, request_of}
use palworld_server_service.Supervisor.EndToEnd.{Reads, served_by, client_request-handle}
use palworld_server_service.Supervisor.Policy.{Permitted, handle_client-Permitted}

-- Every line asks for a restart of the game server.
abbrev asking : Pydantic
asking = record {
  Value = String;
  to_str = λ v. some v;
  to_int = λ v. none;
  to_bool = λ v. none;
  read_json = λ line. some ("1", ("service.restart", ("service_name", "palworld.service") ∷ []));
}

abbrev host : Host
host = record {
  show = λ n. "1";
  exit_of = λ log command. exited (pos 0) "" "";
  runs_for = λ log command. 2000;
}

abbrev two_lines : List (Option Text)
two_lines = some (codes "{}") ∷ some (codes "{}") ∷ []

handle_client-Permitted_example :
    All (Permitted host) (handle_client host asking 1000 (some 1000) two_lines []).1
handle_client-Permitted_example =
    handle_client-Permitted host asking 1000 (some 1000) two_lines [] tt

data Json : Type 0 where
  text : String → Json
  number : ℕ → Json
  truth : Bool → Json

abbrev to_text : Json → Option String
to_text (text s) = some s
to_text (number n) = none
to_text (truth b) = none

abbrev to_number : Json → Option ℕ
to_number (text s) = none
to_number (number n) = some n
to_number (truth b) = none

abbrev to_truth : Json → Option Bool
to_truth (text s) = none
to_truth (number n) = none
to_truth (truth b) = some b

-- Reads every line as a restart of the manager.
abbrev one_request : Pydantic
one_request = record {
  Value = Json;
  to_str = to_text;
  to_int = to_number;
  to_bool = to_truth;
  read_json = λ line. some (
    "0123456789ab",
    (
      "service.restart",
      ("service_name", text "palworld-manager.service") ∷ ("timeout_seconds", number 30) ∷ [],
    ),
  );
}

abbrev writer : Writer one_request
writer = record {
  of_str = text;
  of_int = number;
  of_bool = truth;
  model_dump_json = λ id method params. codes "{}";
}

writer-Reads : Reads one_request writer
writer-Reads = record { str = λ s. refl; int = λ n. refl; bool = λ b. refl }

client_request-handle_example :
    client_request one_request writer 15000
      (served_by host one_request 1000 (some 1000))
      "0123456789ab"
      (service_restart "palworld-manager.service" 30)
      []
    ≡ (
      returned (restarted "palworld-manager.service"),
      ("/bin/systemctl" ∷ "restart" ∷ "palworld-manager.service" ∷ []) ∷ [],
    )
unfolding handle busy_for service_allowed is_refused request_of
client_request-handle_example =
    client_request-handle host one_request writer writer-Reads 15000 1000 (some 1000) "0123456789ab"
      (service_restart "palworld-manager.service" 30) [] (refl, refl) refl refl refl refl
