-- ===== src/Engine/Announcements.antt =====
-- What players read during a countdown (app/engine/service.py).
use mathlib.Core.List.{reverse, reverse-cons, append_assoc}
use palworld_server_service.Common.{
  ℕ, String, zero, suc, ◌≡◌, refl, ◌∙◌, ap, sym, Bool, true, false, ◌||◌, List, [], ◌∷◌, ◌++◌, ◌==◌,
  if◌then◌else◌, map, arith, any_where, keep_where,
}
use palworld_server_service.Engine.State.{
  Engine, World, Note, broadcast, countdown_embed, send, Call, call, call_all, cancel, stage, stop,
  is_stop, in_countdown, cancel_countdown, stage_settings,
}
use palworld_server_service.Engine.Countdown.{
  Order, run_countdown_loop, tick, announces, countdown_message, in_set, discord_intervals,
}
use palworld_server_service.Engine.Waiting.{
  waited, waited-Untouched, waited-is_cancelled, is_cancel,
}

-- The texts of the announcements among what was sent.
abbrev pub spoken : List Note → List String
spoken [] = []
spoken (broadcast text mirrored ∷ notes) = text ∷ spoken notes
spoken (_ ∷ notes) = spoken notes

-- n, n - 1, …, 1
abbrev pub descending : ℕ → List ℕ
descending zero = []
descending (suc n) = suc n ∷ descending n

call-sent : (c : Call) (s : Engine) → (call c s).sent ≡ s.sent
unfolding cancel_countdown stage_settings
call-sent stop s = refl
call-sent (stage text) s = refl
call-sent (cancel reason) s = ground arith

call_all-sent : (cs : List Call) (s : Engine) → (call_all cs s).sent ≡ s.sent
call_all-sent [] s = refl
call_all-sent (c ∷ cs) s = call_all-sent cs (call c s) ∙ call-sent c s

spoken-if :
    (b : Bool) (x y : Engine) (xs ys : List String)
    → spoken x.sent ≡ xs
    → spoken y.sent ≡ ys
    → spoken (if b then x else y).sent ≡ (if b then xs else ys)
spoken-if true x y xs ys hx hy = hx
spoken-if false x y xs ys hx hy = hy

spoken-embed :
    (b : Bool) (time_str : String) (updates : Bool) (tag custom : String) (s : Engine)
    → spoken (if b then send (countdown_embed time_str updates tag custom) s else s).sent
      ≡ spoken s.sent
spoken-embed true time_str updates tag custom s = refl
spoken-embed false time_str updates tag custom s = refl

module _ (w : World) (o : Order) (total : ℕ) where
  -- The announcements of a countdown from n, in their order.
  abbrev pub schedule : ℕ → List String
  schedule n = map (countdown_message w o) (keep_where (announces w total) (descending n))

  tick-spoken :
      (n : ℕ) (s : Engine)
      → spoken (waited w o total n s).sent
        ≡ (if announces w total n then countdown_message w o n ∷ spoken s.sent else spoken s.sent)
  unfolding tick
  tick-spoken n s =
      ap spoken (call_all-sent (w.calls_at n) _)
      ∙ spoken-if (announces w total n) _ _ _ _
          (spoken-embed (in_set n discord_intervals || n == total) _ _ _ _ _) refl

  schedule-step :
      (b : Bool) (n : ℕ) (rest : List ℕ) (before : List String)
      → reverse (map (countdown_message w o) rest)
          ++ (if b then countdown_message w o n ∷ before else before)
        ≡ reverse (map (countdown_message w o) (if b then n ∷ rest else rest)) ++ before
  schedule-step false n rest before = refl
  schedule-step true n rest before =
      sym (append_assoc (reverse texts) (countdown_message w o n ∷ []) before)
      ∙ ap (λ l. l ++ before) (sym (reverse-cons (countdown_message w o n) texts))
    where
      texts : List String
      texts = map (countdown_message w o) rest

  -- From the countdown phase and with no cancellation pending, a countdown that nobody cancels or
  -- stops announces exactly the seconds of the schedule: those in the interval list and the first
  -- second, each once, from the highest down.
  pub countdown_announcements :
      (n : ℕ) (s : Engine)
      → in_countdown s.lifecycle.phase ≡ true
      → s.is_cancelled ≡ false
      → ((k : ℕ) → any_where is_cancel (w.calls_at k) ≡ false)
      → ((k : ℕ) → any_where is_stop (w.calls_at k) ≡ false)
      → spoken (run_countdown_loop w o total n s).1.sent ≡ reverse (schedule n) ++ spoken s.sent
  unfolding run_countdown_loop
  countdown_announcements zero s h e no_cancel no_stop = refl
  countdown_announcements (suc n) s h e no_cancel no_stop =
      let next = waited w o total (suc n) s in
      let g : next.is_cancelled ≡ false =
        waited-is_cancelled w o total (suc n) s h ∙ rw (e, no_cancel (suc n)) refl in
      simp (e, no_stop (suc n), g)
        (countdown_announcements n next (rw (waited-Untouched w o total (suc n) s).same_phase h) g
            no_cancel no_stop
          ∙ rw (tick-spoken (suc n) s) (
              schedule-step (announces w total (suc n)) (suc n)
                (keep_where (announces w total) (descending n)) (spoken s.sent)))
