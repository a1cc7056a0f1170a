-- ===== src/Engine/Undisturbed.antt =====
-- A reboot sequence that nobody cancels asks for one restart of the service, and one that is
-- cancelled withdraws its request for an update (app/engine/service.py).
use palworld_server_service.Common.{
  ℕ, String, zero, suc, ◌≤◌, ◌+◌, ◌≡◌, refl, ◌∙◌, ap, Bool, true, false, Option, none, some, List,
  [], ◌∷◌, map, arith, any_where, Bool-cases, inl, inr,
}
use palworld_server_service.Common.Outcome.{ok}
use palworld_server_service.Engine.State.{
  Engine, World, File, RestartAnswer, granted, refused, ipc_failed, is_stop, check_and_acquire_lock,
  release_reboot_lock, apply_staged_configuration, write_staged, set_update_flags,
  clear_update_flags, write_file, remove_file, touch_lock,
}
use palworld_server_service.Engine.Countdown.{
  Order, run_countdown_loop, LoopEnd, completed, cancelled, stopped, end_loop, begin_countdown,
  prepare, count_and_restart, execute_countdown_and_reboot, restart_and_await_readiness, probe,
  ask_supervisor,
}
use palworld_server_service.Engine.Waiting.{
  restarts, call_all-Untouched, call_all-is_cancelled, waited, is_cancel,
}
use palworld_server_service.Engine.Outcomes.{
  begin-phase, begin-Spared, prepare-Spared, close-Spared, execute-acquired,
}
use palworld_server_service.Engine.Loops.{
  is_completed, loop-Untouched, loop-cancelled, loop-completed,
}

abbrev is_stopped : LoopEnd → Bool
is_stopped stopped = true
is_stopped _ = false

module _ (w : World) where
  restarts-probe : (k i : ℕ) (s : Engine) → restarts (probe w k i s) ≡ restarts s
  restarts-probe zero i s = refl
  restarts-probe (suc k) i s = ground (arith, restarts-probe k (suc i) s)

  restarts-apply : (s : Engine) → restarts (apply_staged_configuration s) ≡ restarts s
  unfolding apply_staged_configuration
  restarts-apply s = written s.staged_ini
    where
      written : (o : Option String) → restarts (write_staged o s) ≡ restarts s
      written none = refl
      written (some text) = refl

  restarts-ask : (a : RestartAnswer) (s : Engine) → restarts (ask_supervisor w a s) ≡ a ∷ restarts s
  restarts-ask granted s = refl
  restarts-ask refused s = refl
  restarts-ask ipc_failed s = refl

  pub restarts-restart :
      (s : Engine) → restarts (restart_and_await_readiness w s) ≡ w.restart_answer ∷ restarts s
  unfolding restart_and_await_readiness
  restarts-restart s =
      restarts-probe 90 0 _
      ∙ (restarts-ask w.restart_answer _
          ∙ ap (λ l. w.restart_answer ∷ l)
              (restarts-apply _ ∙ (call_all-Untouched w.calls_while_saving _).same_restarts))

  end_loop-completed :
      (r : LoopEnd × Engine)
      → r.0 ≡ completed
      → end_loop w r ≡ (ok tt, restart_and_await_readiness w r.1)
  end_loop-completed (completed, s) h = refl
  end_loop-completed (cancelled, s) h = absurd (ground arith)
  end_loop-completed (stopped, s) h = absurd (ground arith)

module _ (w : World) (o : Order) where
  begun-is_cancelled :
      (n : ℕ) (s : Engine)
      → any_where is_cancel w.calls_at_start ≡ false
      → (begin_countdown w o n (prepare w o s)).is_cancelled ≡ false
  begun-is_cancelled n s quiet =
      call_all-is_cancelled w.calls_at_start _ refl ∙ rw (prepared, quiet) refl
    where
      prepared : (prepare w o s).is_cancelled ≡ false
      prepared = unfold set_update_flags in ground arith

  -- An undisturbed countdown comes to the restart, and asked for none before it.
  pub counted :
      (secs : ℕ) (s : Engine)
      → any_where is_stop w.calls_at_start ≡ false
      → any_where is_cancel w.calls_at_start ≡ false
      → ((k : ℕ) → any_where is_cancel (w.calls_at k) ≡ false)
      → ((k : ℕ) → any_where is_stop (w.calls_at k) ≡ false)
      → (t : Engine) × (count_and_restart w o secs (prepare w o s)
          ≡ (ok tt, restart_and_await_readiness w t))
        × (restarts t ≡ restarts s)
  counted zero s start_runs start_quiet no_cancel no_stop =
      (_, refl, (prepare-Spared w o s).same_restarts)
  counted (suc n) s start_runs start_quiet no_cancel no_stop =
      let begun = begin_countdown w o (suc n) (prepare w o s) in
      let loop = run_countdown_loop w o (suc n) (suc n) begun in
      let done : loop.0 ≡ completed =
        loop-completed w o (suc n) (suc n) begun (begin-phase w o (suc n) (prepare w o s))
          (begun-is_cancelled (suc n) s start_quiet) no_cancel no_stop in
      (
        loop.1,
        rw start_runs (end_loop-completed w loop done),
        (loop-Untouched w o (suc n) (suc n) begun).same_restarts
            ∙ (begin-Spared w o (suc n) (prepare w o s)).same_restarts
            ∙ (prepare-Spared w o s).same_restarts,
      )

  -- A sequence that took the lock and that nobody cancels or stops asks the supervisor exactly once
  -- to restart the service, and ends well however that ends: with success, refused or with an
  -- exception.
  pub undisturbed_restarts :
      (secs : ℕ) (s : Engine)
      → (check_and_acquire_lock w s).0 ≡ ok tt
      → any_where is_stop w.calls_at_start ≡ false
      → any_where is_cancel w.calls_at_start ≡ false
      → ((k : ℕ) → any_where is_cancel (w.calls_at k) ≡ false)
      → ((k : ℕ) → any_where is_stop (w.calls_at k) ≡ false)
      → let (r, s') = execute_countdown_and_reboot w secs o s in
        (r ≡ ok tt) × (restarts s' ≡ w.restart_answer ∷ restarts s)
  undisturbed_restarts secs s h start_runs start_quiet no_cancel no_stop =
      let (t, ends, before) =
        counted secs (touch_lock w s) start_runs start_quiet no_cancel no_stop in
      rw (execute-acquired w o secs s h, ends)
        (
          refl,
          (close-Spared w o _).same_restarts
              ∙ (restarts-restart w t ∙ ap (λ l. w.restart_answer ∷ l) before),
        )

  -- A lock file that another sequence holds and that is not stale does not refuse a sequence: where
  -- its age can be read and it can be touched, and nobody cancels or stops, the supervisor is asked
  -- once more to restart the service.
  pub fresh_lock_restarts :
      (secs changed : ℕ) (s : Engine)
      → s.lock_file ≡ some changed
      → w.now_us ≤ changed + 900000000
      → w.lock_inspection_fails ≡ false
      → w.lock_touch_fails ≡ false
      → any_where is_stop w.calls_at_start ≡ false
      → any_where is_cancel w.calls_at_start ≡ false
      → ((k : ℕ) → any_where is_cancel (w.calls_at k) ≡ false)
      → ((k : ℕ) → any_where is_stop (w.calls_at k) ≡ false)
      → let (r, s') = execute_countdown_and_reboot w secs o s in
        (r ≡ ok tt) × (restarts s' ≡ w.restart_answer ∷ restarts s)
  fresh_lock_restarts secs changed s held fresh readable touches = undisturbed_restarts secs s taken
    where
      taken : (check_and_acquire_lock w s).0 ≡ ok tt
      taken = unfold check_and_acquire_lock in rw (held, readable, touches) (ground arith)

  remove-write :
      (text : String) (fs : List File)
      → map remove_file (map (write_file text) fs) ≡ map remove_file fs
  remove-write text [] = refl
  remove-write text (f ∷ fs) = rw (remove-write text fs) (ap (λ g. g ∷ map remove_file fs) (one f))
    where
      one : (f : File) → remove_file (write_file text f) ≡ remove_file f
      one f = elim (Bool-cases f.is_writable) [ inl e ↦ simp e refl | inr e ↦ simp e refl ]

  flags-prepare :
      (s : Engine) → map remove_file (prepare w o s).update_flags ≡ map remove_file s.update_flags
  unfolding set_update_flags
  flags-prepare s = elim (Bool-cases o.trigger_update) [
    | inl e ↦ simp e (remove-write "1\n" s.update_flags)
    | inr e ↦ simp e refl
  ]

  loop-runs :
      (total n : ℕ) (s : Engine)
      → ((k : ℕ) → any_where is_stop (w.calls_at k) ≡ false)
      → is_stopped (run_countdown_loop w o total n s).0 ≡ false
  unfolding run_countdown_loop
  loop-runs total zero s no_stop = refl
  loop-runs total (suc n) s no_stop =
      let next = waited w o total (suc n) s in
      elim (Bool-cases s.is_cancelled) [
        | inl e ↦ simp e refl
        | inr e ↦ elim (Bool-cases next.is_cancelled) [
          | inl g ↦ simp (e, no_stop (suc n), g) refl
          | inr g ↦ simp (e, no_stop (suc n), g) (loop-runs total n next no_stop)
        ]
      ]

  end_loop-cancelled :
      (r : LoopEnd × Engine)
      → is_completed r.0 ≡ false
      → is_stopped r.0 ≡ false
      → ((end_loop w r).0 ≡ ok tt)
        × ((end_loop w r).1.update_flags ≡ map remove_file r.1.update_flags)
  unfolding clear_update_flags
  end_loop-cancelled (completed, s) h k = absurd (ground arith)
  end_loop-cancelled (cancelled, s) h k = (refl, refl)
  end_loop-cancelled (stopped, s) h k = absurd (ground arith)

  -- A cancelled sequence that nobody stops ends well and takes the request for an update back: each
  -- update flag that the process may remove is gone, whether or not this sequence set it.
  pub cancel_clears_flags :
      (secs t : ℕ) (s : Engine)
      → (check_and_acquire_lock w s).0 ≡ ok tt
      → 1 ≤ t
      → t ≤ secs
      → any_where is_cancel (w.calls_at t) ≡ true
      → any_where is_stop w.calls_at_start ≡ false
      → ((k : ℕ) → any_where is_stop (w.calls_at k) ≡ false)
      → let (r, s') = execute_countdown_and_reboot w secs o s in
        (r ≡ ok tt) × (s'.update_flags ≡ map remove_file s.update_flags)
  unfolding release_reboot_lock
  cancel_clears_flags zero t s h lo hi c start_runs no_stop = absurd (omega arith)
  cancel_clears_flags (suc n) t s h lo hi c start_runs no_stop =
      let ready = prepare w o (touch_lock w s) in
      let begun = begin_countdown w o (suc n) ready in
      let loop = run_countdown_loop w o (suc n) (suc n) begun in
      let (fine, cleared) =
        end_loop-cancelled loop
          (loop-cancelled w o (suc n) (suc n) t begun (begin-phase w o (suc n) ready) lo hi c)
          (loop-runs (suc n) (suc n) begun no_stop) in
      simp (execute-acquired w o (suc n) s h, start_runs)
        (
          fine,
          cleared
              ∙ ap (map remove_file) (
                  (loop-Untouched w o (suc n) (suc n) begun).same_flags
                  ∙ (call_all-Untouched w.calls_at_start _).same_flags)
              ∙ flags-prepare (touch_lock w s),
        )
