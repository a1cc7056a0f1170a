-- ===== src/Engine/Outcomes.antt =====
-- How a reboot sequence ends (app/engine/service.py): cancelled, undisturbed, and in every case
-- with the lock released.
use palworld_server_service.Common.{
  ◌-◌, ltb, ℕ, zero, suc, ◌≤◌, ◌≡◌, refl, ◌∙◌, true, false, ◌⊎◌, Option, none, some, arith,
  any_where, Bool-cases, inl, inr,
}
use palworld_server_service.Common.Outcome.{Error, ok, err, runtime_error, os_error}
use palworld_server_service.Engine.State.{
  Engine, World, idle_state, is_stop, in_countdown, touch_lock, claim_lock, inspect_lock, publish,
  check_and_acquire_lock, release_reboot_lock, set_update_flags, clear_update_flags,
}
use palworld_server_service.Engine.Countdown.{
  Order, LoopEnd, completed, cancelled, stopped, end_loop, begin_countdown, prepare, locked,
  count_and_restart, execute_countdown_and_reboot,
}
use palworld_server_service.Engine.Waiting.{restarts, Untouched, call_all-Untouched, is_cancel}
use palworld_server_service.Engine.Loops.{is_completed, loop-Untouched, loop-cancelled}

-- What a sequence that does not restart leaves alone.
pub record Spared (s t : Engine) : Type 0 where
  pub same_restarts : restarts t ≡ restarts s
  pub same_ini : t.ini_file ≡ s.ini_file
  pub same_drop_ins : t.drop_ins ≡ s.drop_ins

Spared-refl : (s : Engine) → Spared s s
Spared-refl s = record { same_restarts = refl; same_ini = refl; same_drop_ins = refl }

Spared-trans : (s t u : Engine) → Spared s t → Spared t u → Spared s u
Spared-trans s t u a b = record {
  same_restarts = b.same_restarts ∙ a.same_restarts;
  same_ini = b.same_ini ∙ a.same_ini;
  same_drop_ins = b.same_drop_ins ∙ a.same_drop_ins;
}

Untouched-Spared : (s t : Engine) → Untouched s t → Spared s t
Untouched-Spared s t u = record {
  same_restarts = u.same_restarts;
  same_ini = u.same_ini;
  same_drop_ins = u.same_drop_ins;
}

module _ (w : World) (o : Order) where
  end_loop-Spared :
      (r : LoopEnd) (s : Engine) → is_completed r ≡ false → Spared s (end_loop w (r, s)).1
  unfolding clear_update_flags
  end_loop-Spared completed s h = absurd (ground arith)
  end_loop-Spared cancelled s h = record {
    same_restarts = refl;
    same_ini = refl;
    same_drop_ins = refl;
  }
  end_loop-Spared stopped s h = record {
    same_restarts = refl;
    same_ini = refl;
    same_drop_ins = refl;
  }

  pub begin-Spared : (n : ℕ) (s : Engine) → Spared s (begin_countdown w o n s)
  begin-Spared n s =
      Spared-trans s _ _ (record { same_restarts = refl; same_ini = refl; same_drop_ins = refl })
        (Untouched-Spared _ _ (call_all-Untouched w.calls_at_start _))

  pub begin-phase :
      (n : ℕ) (s : Engine) → in_countdown (begin_countdown w o n s).lifecycle.phase ≡ true
  begin-phase n s = rw (call_all-Untouched w.calls_at_start _).same_phase refl

  count-Spared :
      (secs t : ℕ) (s : Engine)
      → 1 ≤ t
      → t ≤ secs
      → any_where is_cancel (w.calls_at t) ≡ true
      → Spared s (count_and_restart w o secs s).1
  count-Spared zero t s lo hi c = absurd (omega arith)
  count-Spared (suc n) t s lo hi c =
      let begun = begin_countdown w o (suc n) s in
      elim (Bool-cases (any_where is_stop w.calls_at_start)) [
        | inl e ↦ simp e (begin-Spared (suc n) s)
        | inr e ↦ simp e (
            Spared-trans s begun _ (begin-Spared (suc n) s) (
              Spared-trans begun _ _
                (Untouched-Spared begun _ (loop-Untouched w o (suc n) (suc n) begun))
                (end_loop-Spared _ _
                  (loop-cancelled w o (suc n) (suc n) t begun (begin-phase (suc n) s) lo hi c))))
      ]

  pub prepare-Spared : (s : Engine) → Spared s (prepare w o s)
  unfolding set_update_flags
  prepare-Spared s = elim (Bool-cases o.trigger_update) [
    | inl e ↦ simp e (record { same_restarts = refl; same_ini = refl; same_drop_ins = refl })
    | inr e ↦ simp e (record { same_restarts = refl; same_ini = refl; same_drop_ins = refl })
  ]

  pub close-Spared : (s : Engine) → Spared s (publish (release_reboot_lock w s))
  unfolding release_reboot_lock
  close-Spared s = record { same_restarts = refl; same_ini = refl; same_drop_ins = refl }

  acquired-or-not :
      (s : Engine)
      → (claim_lock w s ≡ (ok tt, touch_lock w s)) ⊎ (claim_lock w s ≡ (err os_error, s))
  acquired-or-not s = elim (Bool-cases w.lock_touch_fails) [
    | inl e ↦ inr (rw e refl)
    | inr e ↦ inl (rw e refl)
  ]

  inspect-cases :
      (o : Option ℕ) (s : Engine)
      → (inspect_lock w o s ≡ (ok tt, touch_lock w s))
        ⊎ ((e : Error) × (s' : Engine) × (inspect_lock w o s ≡ (err e, s')) × Spared s s')
  inspect-cases none s = elim (acquired-or-not s) [
    | inl e ↦ inl e
    | inr e ↦ inr (os_error, s, e, Spared-refl s)
  ]
  inspect-cases (some changed) s = elim (Bool-cases w.lock_inspection_fails) [
    | inl e ↦ inr (runtime_error, s, rw e refl, Spared-refl s)
    | inr e ↦ elim (Bool-cases (ltb 900000000 (w.now_us - changed))) [
      | inl stale ↦ elim (acquired-or-not (record s { lock_file = none })) [
        | inl f ↦ inl (simp (e, stale) f)
        | inr f ↦ inr (
          os_error,
          record s { lock_file = none },
          simp (e, stale) f,
          record { same_restarts = refl; same_ini = refl; same_drop_ins = refl },
        )
      ]
      | inr fresh ↦ elim (acquired-or-not s) [
        | inl f ↦ inl (simp (e, fresh) f)
        | inr f ↦ inr (os_error, s, simp (e, fresh) f, Spared-refl s)
      ]
    ]
  ]

  -- The lock is either taken, whatever stood there, or refused with nothing changed but the lock.
  acquire-cases :
      (s : Engine)
      → (check_and_acquire_lock w s ≡ (ok tt, touch_lock w s))
        ⊎ ((e : Error) × (s' : Engine) × (check_and_acquire_lock w s ≡ (err e, s')) × Spared s s')
  unfolding check_and_acquire_lock
  acquire-cases s = inspect-cases s.lock_file s

  pub execute-acquired :
      (secs : ℕ) (s : Engine)
      → (check_and_acquire_lock w s).0 ≡ ok tt
      → execute_countdown_and_reboot w secs o s ≡ locked w o secs (touch_lock w s)
  unfolding execute_countdown_and_reboot
  execute-acquired secs s h = elim (acquire-cases s) [
    | inl e ↦ rw e refl
    | inr (x, s', e, spared) ↦ absurd (ground (arith, e))
  ]

  -- A cancellation that another task sends at some tick of the countdown stops the restart: the
  -- supervisor is not asked to restart the service, and neither the settings file nor its drop-ins
  -- are written, whatever the surroundings do.
  pub cancel_prevents_restart :
      (secs t : ℕ) (s : Engine)
      → 1 ≤ t
      → t ≤ secs
      → any_where is_cancel (w.calls_at t) ≡ true
      → Spared s (execute_countdown_and_reboot w secs o s).1
  unfolding execute_countdown_and_reboot
  cancel_prevents_restart secs t s lo hi c = elim (acquire-cases s) [
    | inl e ↦
        let begun = touch_lock w s in
        let ready = prepare w o begun in
        simp e (
          Spared-trans s ready _
            (Spared-trans s begun ready
              (record { same_restarts = refl; same_ini = refl; same_drop_ins = refl })
              (prepare-Spared begun))
            (Spared-trans ready _ _ (count-Spared secs t ready lo hi c) (close-Spared _)))
    | inr (x, s', e, spared) ↦ simp e spared
  ]

  -- Whatever happens during a sequence that took the lock, it ends idle, and with the lock file gone
  -- where that can be removed.
  pub execute_released :
      (secs : ℕ) (s : Engine)
      → (check_and_acquire_lock w s).0 ≡ ok tt
      → w.lock_removal_fails ≡ false
      → let s' = (execute_countdown_and_reboot w secs o s).1 in
        (s'.lifecycle ≡ idle_state) × (s'.lock_file ≡ none)
  unfolding release_reboot_lock
  execute_released secs s h f = rw (execute-acquired secs s h) (refl, rw f refl)
