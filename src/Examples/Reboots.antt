-- ===== src/Examples/Reboots.antt =====
-- The theorems about reboots at one engine.
use palworld_server_service.Common.{
  ◌≡◌, refl, List, true, false, none, some, [], ◌∷◌, ◌++◌, arith, ◌==◌, if◌then◌else◌,
}
use mathlib.Core.List.{reverse}
use palworld_server_service.Common.Outcome.{ok}
use palworld_server_service.Engine.State.{
  Engine, World, File, Note, granted, refused, complete_embed, lifecycle_update, cancel, idle_state,
  check_and_acquire_lock,
}
use palworld_server_service.Engine.Countdown.{
  Order, execute_countdown_and_reboot, run_countdown_loop, begin_countdown,
}
use palworld_server_service.Engine.Waiting.{restarts}
use palworld_server_service.Engine.Outcomes.{Spared, cancel_prevents_restart, execute_released}
use palworld_server_service.Engine.Undisturbed.{undisturbed_restarts, fresh_lock_restarts}
use palworld_server_service.Engine.Reported.{refused_restart_reported}
use palworld_server_service.Engine.Announcements.{spoken, schedule, countdown_announcements}

abbrev quiet : World
quiet = record {
  show = λ n. if n == 1 then "1" else "2";
  now_us = 1000;
  lock_inspection_fails = false;
  lock_touch_fails = false;
  lock_removal_fails = false;
  calls_at_start = [];
  calls_at = λ k. [];
  calls_while_saving = [];
  is_ready = λ k. true;
  restart_answer = granted;
}

-- An administrator cancels with one second left.
abbrev cancelling : World
cancelling = record quiet { calls_at = λ k. if k == 1 then cancel "raid" ∷ [] else [] }

abbrev update : Order
update = record { trigger_update = true; update_version_tag = "v2"; custom_message = "" }

abbrev flag : File
flag = record { content = none; is_writable = true }

abbrev engine : Engine
engine = record {
  lifecycle = idle_state;
  is_cancelled = false;
  reason = "";
  staged_ini = some "[settings]";
  lock_file = some 500;
  update_flags = flag ∷ flag ∷ [];
  ini_file = flag;
  drop_ins = [];
  sent = [];
}

cancel_prevents_restart_example :
    Spared engine (execute_countdown_and_reboot cancelling 2 update engine).1
cancel_prevents_restart_example =
    cancel_prevents_restart cancelling update 2 1 engine (omega arith) (omega arith) refl

execute_released_example :
    ((execute_countdown_and_reboot cancelling 2 update engine).1.lifecycle ≡ idle_state)
    × ((execute_countdown_and_reboot cancelling 2 update engine).1.lock_file ≡ none)
unfolding check_and_acquire_lock
execute_released_example = execute_released cancelling update 2 engine refl refl

undisturbed_restarts_example :
    ((execute_countdown_and_reboot quiet 2 update engine).0 ≡ ok tt)
    × (restarts (execute_countdown_and_reboot quiet 2 update engine).1 ≡ granted ∷ [])
unfolding check_and_acquire_lock
undisturbed_restarts_example =
    undisturbed_restarts quiet update 2 engine refl refl refl (λ k. refl) (λ k. refl)

fresh_lock_restarts_example :
    ((execute_countdown_and_reboot quiet 2 update engine).0 ≡ ok tt)
    × (restarts (execute_countdown_and_reboot quiet 2 update engine).1 ≡ granted ∷ [])
fresh_lock_restarts_example =
    fresh_lock_restarts quiet update 2 500 engine refl (omega arith) refl refl refl refl (λ k. refl)
      (λ k. refl)

abbrev refusing : World
refusing = record quiet { restart_answer = refused }

refused_restart_reported_example :
    ((execute_countdown_and_reboot refusing 2 update engine).0 ≡ ok tt)
    × (restarts (execute_countdown_and_reboot refusing 2 update engine).1 ≡ refused ∷ [])
    × (older : List Note) × ((execute_countdown_and_reboot refusing 2 update engine).1.sent
        ≡ lifecycle_update idle_state ∷ complete_embed ∷ older)
unfolding check_and_acquire_lock
refused_restart_reported_example =
    refused_restart_reported refusing update 2 0 engine refl refl refl (λ k. refl) (λ k. refl) refl
      (omega arith) refl

countdown_announcements_example :
    spoken (run_countdown_loop quiet update 2 2 (begin_countdown quiet update 2 engine)).1.sent
    ≡ reverse (schedule quiet update 2 2) ++ []
countdown_announcements_example =
    countdown_announcements quiet update 2 2 (begin_countdown quiet update 2 engine) refl refl
      (λ k. refl) (λ k. refl)
