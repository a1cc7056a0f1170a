-- ===== src/Engine/Reported.antt =====
-- What Discord is told at the end of a reboot sequence (app/engine/service.py).
use palworld_server_service.Common.{
  ℕ, zero, suc, ◌+◌, ◌≤◌, ltb, ◌≡◌, refl, ◌∙◌, ap, true, false, List, ◌∷◌, arith, any_where,
  Bool-cases, inl, inr,
}
use palworld_server_service.Common.Outcome.{ok}
use palworld_server_service.Engine.State.{
  Engine, World, Note, refused, complete_embed, lifecycle_update, idle_state, is_stop,
  check_and_acquire_lock, release_reboot_lock, touch_lock,
}
use palworld_server_service.Engine.Countdown.{
  Order, execute_countdown_and_reboot, restart_and_await_readiness, probe,
}
use palworld_server_service.Engine.Waiting.{restarts, is_cancel}
use palworld_server_service.Engine.Outcomes.{execute-acquired}
use palworld_server_service.Engine.Undisturbed.{counted, restarts-restart}

module _ (w : World) where
  probe_complete :
      (k i j : ℕ) (s : Engine)
      → i ≤ j
      → suc j ≤ i + k
      → w.is_ready j ≡ true
      → (probe w k i s).sent ≡ complete_embed ∷ s.sent
  probe_complete zero i j s lo hi ready = absurd (omega arith)
  probe_complete (suc k) i j s lo hi ready = elim (Bool-cases (w.is_ready i)) [
    | inl now ↦ rw now refl
    | inr later ↦ elim (Bool-cases (ltb i j)) [
      | inl below ↦ rw later (probe_complete k (suc i) j s (ground arith) (omega arith) ready)
      | inr here ↦ let same : i ≡ j = ground arith in absurd (ground (arith, ap w.is_ready same))
    ]
  ]

  restart_complete :
      (j : ℕ) (s : Engine)
      → suc j ≤ 90
      → w.is_ready j ≡ true
      → (older : List Note) × ((restart_and_await_readiness w s).sent ≡ complete_embed ∷ older)
  unfolding restart_and_await_readiness
  restart_complete j s hi ready = (_, probe_complete 90 0 j _ (omega arith) hi ready)

  -- A restart that the supervisor refuses is announced as done: where the lock is taken, nobody
  -- cancels or stops the sequence, and one of the 90 probes finds the game server ready, as the one
  -- that was not restarted is, the sequence ends well, the supervisor was asked once and refused, and
  -- the last that is sent before the idle state is the notice that the restart is complete.
  pub refused_restart_reported :
      (o : Order) (secs j : ℕ) (s : Engine)
      → (check_and_acquire_lock w s).0 ≡ ok tt
      → any_where is_stop w.calls_at_start ≡ false
      → any_where is_cancel w.calls_at_start ≡ false
      → ((k : ℕ) → any_where is_cancel (w.calls_at k) ≡ false)
      → ((k : ℕ) → any_where is_stop (w.calls_at k) ≡ false)
      → w.restart_answer ≡ refused
      → suc j ≤ 90
      → w.is_ready j ≡ true
      → let (r, s') = execute_countdown_and_reboot w secs o s in
        (r ≡ ok tt)
        × (restarts s' ≡ refused ∷ restarts s)
        × (older : List Note) × (s'.sent ≡ lifecycle_update idle_state ∷ complete_embed ∷ older)
  unfolding release_reboot_lock
  refused_restart_reported o secs j s h start_runs start_quiet no_cancel no_stop refusal hi ready =
      let (t, ends, before) =
        counted w o secs (touch_lock w s) start_runs start_quiet no_cancel no_stop in
      let (older, told) = restart_complete j t hi ready in
      rw (execute-acquired w o secs s h, ends)
        (
          refl,
          restarts-restart w t
              ∙ (ap (λ l. w.restart_answer ∷ l) before ∙ ap (λ a. a ∷ restarts s) refusal),
          older,
          ap (λ l. lifecycle_update idle_state ∷ l) told,
        )
