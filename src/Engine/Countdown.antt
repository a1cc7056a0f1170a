-- ===== src/Engine/Countdown.antt =====
-- The countdown, the restart phases and the whole sequence (app/engine/service.py). A call of
-- another task that falls into a tick's awaits counts from the tick's wait on: the loop looks at the
-- cancellation event there and at the top of each tick only.
use Prim.Native.String.{◌++◌ as append}
use palworld_server_service.Common.{
  ℕ, zero, suc, leb, ltb, ◌/◌, String, Bool, true, false, ◌||◌, List, [], ◌∷◌, ◌==◌, str_eq,
  if◌then◌else◌, any_where,
}
use palworld_server_service.Common.Outcome.{Outcome, ok, err, cancelled_error, Action, ◌>>◌}
use palworld_server_service.Engine.State.{
  Engine, World, countdown, saving, maintenance, probing, broadcast, countdown_embed,
  cancelled_embed, complete_embed, save, RestartAnswer, granted, refused, ipc_failed, restart,
  error_logged, send, publish, enter, call_all, is_stop, set_update_flags, clear_update_flags,
  check_and_acquire_lock, release_reboot_lock, apply_staged_configuration,
}

abbrev pub all_intervals : List ℕ
all_intervals = 600 ∷ 300 ∷ 180 ∷ 120 ∷ 60 ∷ 30 ∷ 15 ∷ 10 ∷ 5 ∷ 4 ∷ 3 ∷ 2 ∷ 1 ∷ []

abbrev pub discord_intervals : List ℕ
discord_intervals = 600 ∷ 300 ∷ 60 ∷ []

abbrev pub in_set : ℕ → List ℕ → Bool
in_set n = any_where (λ k. k == n)

-- The parameters of execute_countdown_and_reboot, after the seconds.
pub record Order : Type 0 where
  pub trigger_update : Bool
  pub update_version_tag : String
  pub custom_message : String

pub data LoopEnd : Type 0 where
  completed : LoopEnd
  cancelled : LoopEnd
  stopped : LoopEnd

module _ (w : World) where
  unfoldable pub format_countdown_string : ℕ → String
  format_countdown_string remaining_seconds =
      if leb 60 remaining_seconds
      then append (w.show (remaining_seconds / 60))
          (append " minute" (if ltb 1 (remaining_seconds / 60) then "s" else ""))
      else append (w.show remaining_seconds) " seconds"

  abbrev pub with_custom : Order → String → String
  with_custom o text =
      if str_eq o.custom_message "" then text else append o.custom_message (append " - " text)

  -- full_msg
  unfoldable pub countdown_message : Order → ℕ → String
  countdown_message o remaining =
      let time_str = format_countdown_string remaining in
      with_custom o (
        if o.trigger_update
        then append "Server updating" (
            append
              (if str_eq o.update_version_tag "" then "" else append " to " o.update_version_tag)
              (append " and restarting in " (append time_str ".")))
        else append "Server maintenance restart in " (append time_str "."))

  abbrev pub announces : ℕ → ℕ → Bool
  announces countdown_seconds remaining =
      in_set remaining all_intervals || remaining == countdown_seconds

  abbrev pub notify_discord : Order → ℕ → ℕ → Engine → Engine
  notify_discord o countdown_seconds remaining s =
      if in_set remaining discord_intervals || remaining == countdown_seconds
      then send
          (countdown_embed (format_countdown_string remaining) o.trigger_update o.update_version_tag
            o.custom_message)
          s
      else s

  abbrev pub announce : Order → ℕ → ℕ → Engine → Engine
  announce o countdown_seconds remaining s =
      let full_msg = countdown_message o remaining in
      if announces countdown_seconds remaining
      then notify_discord o countdown_seconds remaining (
          send (broadcast full_msg false)
            (record s { lifecycle = record s.lifecycle { current_broadcast = full_msg } }))
      else s

  -- One tick up to its wait.
  unfoldable pub tick : Order → ℕ → ℕ → Engine → Engine
  tick o countdown_seconds remaining s = publish (
      announce o countdown_seconds remaining
        (record s { lifecycle = record s.lifecycle { remaining_seconds = remaining } }))

  -- _run_countdown_loop, from so many seconds remaining.
  unfoldable pub run_countdown_loop : Order → ℕ → ℕ → Engine → LoopEnd × Engine
  run_countdown_loop o countdown_seconds zero s = (completed, s)
  run_countdown_loop o countdown_seconds (suc n) s =
      let waited = call_all (w.calls_at (suc n)) (tick o countdown_seconds (suc n) s) in
      if s.is_cancelled
      then (cancelled, s)
      else if any_where is_stop (w.calls_at (suc n))
      then (stopped, waited)
      else if waited.is_cancelled
      then (cancelled, waited)
      else run_countdown_loop o countdown_seconds n waited

  -- The 90 probes, from the given one on.
  abbrev pub probe : ℕ → ℕ → Engine → Engine
  probe zero i s = s
  probe (suc k) i s = if w.is_ready i then send complete_embed s else probe k (suc i) s

  -- The supervisor's restart; a failed one is logged, and the sequence goes on.
  abbrev pub ask_supervisor : RestartAnswer → Engine → Engine
  ask_supervisor granted s = send (restart granted) s
  ask_supervisor refused s = send error_logged (send (restart refused) s)
  ask_supervisor ipc_failed s = send error_logged (send (restart ipc_failed) s)

  -- _restart_and_await_readiness, on a POSIX host
  unfoldable pub restart_and_await_readiness : Engine → Engine
  restart_and_await_readiness s =
      let saved = send save (
        send (broadcast "Server restarting NOW. Saving progress." true)
          (enter saving "Saving world state to disk..." s)) in
      let maintained = apply_staged_configuration (
        enter maintenance "Executing systemctl restart & backup hooks..."
          (call_all w.calls_while_saving saved)) in
      probe 90 0 (
        enter probing "Probing engine initialization and readiness..."
          (ask_supervisor w.restart_answer maintained))

  abbrev pub cancel_message : String → String
  cancel_message reason =
      if str_eq reason ""
      then "Server restart CANCELLED."
      else append "Server restart CANCELLED: " reason

  abbrev pub end_loop : LoopEnd × Engine → Outcome (Unit {0}) × Engine
  end_loop (completed, s) = (ok tt, restart_and_await_readiness s)
  end_loop (cancelled, s) = (
    ok tt,
    clear_update_flags
        (send (cancelled_embed s.reason) (send (broadcast (cancel_message s.reason) false) s)),
  )
  end_loop (stopped, s) = (err cancelled_error, s)

  abbrev pub begin_countdown : Order → ℕ → Engine → Engine
  begin_countdown o countdown_seconds s = call_all w.calls_at_start (
      publish (record s {
        lifecycle = record {
          phase = countdown;
          remaining_seconds = countdown_seconds;
          total_seconds = countdown_seconds;
          current_broadcast =
              if str_eq o.custom_message ""
              then "Initiating countdown sequence..."
              else o.custom_message;
          is_updating = o.trigger_update;
        };
      }))

  abbrev pub announce_now : Order → Engine → Engine
  announce_now o s =
      send (countdown_embed "immediately" o.trigger_update o.update_version_tag o.custom_message) (
        send
          (broadcast
            (with_custom o (
              if o.trigger_update
              then "Server updating and restarting immediately."
              else "Server restarting immediately."))
            false)
          s)

  -- `if countdown_seconds > 0:` and its else
  abbrev pub count_and_restart : Order → ℕ → Action Engine (Unit {0})
  count_and_restart o zero s = (ok tt, restart_and_await_readiness (announce_now o s))
  count_and_restart o (suc n) s =
      if any_where is_stop w.calls_at_start
      then (err cancelled_error, begin_countdown o (suc n) s)
      else end_loop (run_countdown_loop o (suc n) (suc n) (begin_countdown o (suc n) s))

  abbrev pub prepare : Order → Engine → Engine
  prepare o s =
      let cleared = record s { is_cancelled = false; reason = "" } in
      if o.trigger_update then set_update_flags cleared else cleared

  -- the try block and its finally
  abbrev pub locked : Order → ℕ → Action Engine (Unit {0})
  locked o countdown_seconds s =
      let (r, s') = count_and_restart o countdown_seconds (prepare o s) in
      (r, publish (release_reboot_lock w s'))

  unfoldable pub execute_countdown_and_reboot : ℕ → Order → Action Engine (Unit {0})
  execute_countdown_and_reboot countdown_seconds o =
      check_and_acquire_lock w >> locked o countdown_seconds
