-- ===== src/Engine/Loops.antt =====
-- How the countdown loop ends (app/engine/service.py).
use palworld_server_service.Common.{
  ℕ, zero, suc, ◌≤◌, ◌≡◌, refl, ◌∙◌, Bool, true, false, arith, ◌==◌, any_where, Bool-cases, inl,
  inr,
}
use palworld_server_service.Engine.State.{Engine, World, is_stop, in_countdown}
use palworld_server_service.Engine.Countdown.{Order, run_countdown_loop, LoopEnd, completed}
use palworld_server_service.Engine.Waiting.{
  Untouched, Untouched-refl, Untouched-trans, waited, waited-Untouched, waited-is_cancelled,
  is_cancel,
}

abbrev pub is_completed : LoopEnd → Bool
is_completed completed = true
is_completed _ = false

module _ (w : World) (o : Order) (total : ℕ) where
  pub loop-Untouched : (n : ℕ) (s : Engine) → Untouched s (run_countdown_loop w o total n s).1
  unfolding run_countdown_loop
  loop-Untouched zero s = Untouched-refl s
  loop-Untouched (suc n) s =
      let u = waited-Untouched w o total (suc n) s in
      elim (Bool-cases s.is_cancelled) [
        | inl e ↦ simp e (Untouched-refl s)
        | inr e ↦ elim (Bool-cases (any_where is_stop (w.calls_at (suc n)))) [
          | inl f ↦ simp (e, f) u
          | inr f ↦ elim (Bool-cases (waited w o total (suc n) s).is_cancelled) [
            | inl g ↦ simp (e, f, g) u
            | inr g ↦
                simp (e, f, g)
                  (Untouched-trans s _ _ u (loop-Untouched n (waited w o total (suc n) s)))
          ]
        ]
      ]

  -- A cancellation that arrives at a tick to come ends the loop before the restart.
  pub loop-cancelled :
      (n t : ℕ) (s : Engine)
      → in_countdown s.lifecycle.phase ≡ true
      → 1 ≤ t
      → t ≤ n
      → any_where is_cancel (w.calls_at t) ≡ true
      → is_completed (run_countdown_loop w o total n s).0 ≡ false
  unfolding run_countdown_loop
  loop-cancelled zero t s h lo hi c = absurd (omega arith)
  loop-cancelled (suc n) t s h lo hi c =
      let next = waited w o total (suc n) s in
      elim (Bool-cases s.is_cancelled) [
        | inl e ↦ simp e refl
        | inr e ↦ elim (Bool-cases (any_where is_stop (w.calls_at (suc n)))) [
          | inl f ↦ simp (e, f) refl
          | inr f ↦ elim (Bool-cases next.is_cancelled) [
            | inl g ↦ simp (e, f, g) refl
            | inr g ↦ elim (Bool-cases (t == suc n)) [
              | inl last ↦
                  let same : suc n ≡ t = ground arith in
                  let here : any_where is_cancel (w.calls_at (suc n)) ≡ true = rw same c in
                  let noticed : next.is_cancelled ≡ true =
                    waited-is_cancelled w o total (suc n) s h ∙ rw (e, here) refl in
                  absurd (ground (arith, noticed))
              | inr sooner ↦
                  simp (e, f, g)
                    (loop-cancelled n t next
                      (rw (waited-Untouched w o total (suc n) s).same_phase h) lo (ground arith) c)
            ]
          ]
        ]
      ]

  -- With no cancellation at all the loop runs to its end.
  pub loop-completed :
      (n : ℕ) (s : Engine)
      → in_countdown s.lifecycle.phase ≡ true
      → s.is_cancelled ≡ false
      → ((k : ℕ) → any_where is_cancel (w.calls_at k) ≡ false)
      → ((k : ℕ) → any_where is_stop (w.calls_at k) ≡ false)
      → (run_countdown_loop w o total n s).0 ≡ completed
  unfolding run_countdown_loop
  loop-completed zero s h e no_cancel no_stop = refl
  loop-completed (suc n) s h e no_cancel no_stop =
      let next = waited w o total (suc n) s in
      let g : next.is_cancelled ≡ false =
        waited-is_cancelled w o total (suc n) s h ∙ rw (e, no_cancel (suc n)) refl in
      simp (e, no_stop (suc n), g)
        (loop-completed n next (rw (waited-Untouched w o total (suc n) s).same_phase h) g no_cancel
          no_stop)
