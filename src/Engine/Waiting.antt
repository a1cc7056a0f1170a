-- ===== src/Engine/Waiting.antt =====
-- What a tick, a call of another task and the countdown loop leave as it was (app/engine/service.py).
use palworld_server_service.Common.{
  ℕ, ◌≡◌, refl, ◌∙◌, ap, String, Bool, true, false, ◌||◌, List, [], ◌∷◌, arith, any_where,
  if◌then◌else◌,
}
use palworld_server_service.Engine.State.{
  Engine, World, Note, RestartAnswer, restart, Call, cancel, stage, stop, call, call_all,
  in_countdown, cancel_countdown, stage_settings,
}
use palworld_server_service.Engine.Countdown.{Order, tick}

-- How each request to restart the service ended, the newest first.
abbrev pub restarts_in : List Note → List RestartAnswer
restarts_in [] = []
restarts_in (restart answer ∷ notes) = answer ∷ restarts_in notes
restarts_in (_ ∷ notes) = restarts_in notes

abbrev pub restarts : Engine → List RestartAnswer
restarts s = restarts_in s.sent

-- Between the two states no restart was asked for, and no file and no phase changed.
pub record Untouched (s t : Engine) : Type 0 where
  pub same_restarts : restarts t ≡ restarts s
  pub same_ini : t.ini_file ≡ s.ini_file
  pub same_drop_ins : t.drop_ins ≡ s.drop_ins
  pub same_flags : t.update_flags ≡ s.update_flags
  pub same_phase : t.lifecycle.phase ≡ s.lifecycle.phase

pub Untouched-refl : (s : Engine) → Untouched s s
Untouched-refl s = record {
  same_restarts = refl;
  same_ini = refl;
  same_drop_ins = refl;
  same_flags = refl;
  same_phase = refl;
}

pub Untouched-trans : (s t u : Engine) → Untouched s t → Untouched t u → Untouched s u
Untouched-trans s t u a b = record {
  same_restarts = b.same_restarts ∙ a.same_restarts;
  same_ini = b.same_ini ∙ a.same_ini;
  same_drop_ins = b.same_drop_ins ∙ a.same_drop_ins;
  same_flags = b.same_flags ∙ a.same_flags;
  same_phase = b.same_phase ∙ a.same_phase;
}

call-Untouched : (c : Call) (s : Engine) → Untouched s (call c s)
unfolding cancel_countdown stage_settings
call-Untouched stop s = Untouched-refl s
call-Untouched (stage text) s = record {
  same_restarts = refl;
  same_ini = refl;
  same_drop_ins = refl;
  same_flags = refl;
  same_phase = refl;
}
call-Untouched (cancel reason) s = record {
  same_restarts = ground arith;
  same_ini = ground arith;
  same_drop_ins = ground arith;
  same_flags = ground arith;
  same_phase = ground arith;
}

pub call_all-Untouched : (cs : List Call) (s : Engine) → Untouched s (call_all cs s)
call_all-Untouched [] s = Untouched-refl s
call_all-Untouched (c ∷ cs) s =
    Untouched-trans s (call c s) _ (call-Untouched c s) (call_all-Untouched cs (call c s))

pub tick-Untouched :
    (w : World) (o : Order) (total n : ℕ) (s : Engine) → Untouched s (tick w o total n s)
unfolding tick
tick-Untouched w o total n s = record {
  same_restarts = ground arith;
  same_ini = ground arith;
  same_drop_ins = ground arith;
  same_flags = ground arith;
  same_phase = ground arith;
}

tick-is_cancelled :
    (w : World) (o : Order) (total n : ℕ) (s : Engine)
    → (tick w o total n s).is_cancelled ≡ s.is_cancelled
unfolding tick
tick-is_cancelled w o total n s = ground arith

abbrev pub is_cancel : Call → Bool
is_cancel (cancel reason) = true
is_cancel _ = false

cancel_takes_effect :
    (reason : String) (s : Engine)
    → in_countdown s.lifecycle.phase ≡ true
    → call (cancel reason) s ≡ record s { is_cancelled = true; reason = reason }
unfolding cancel_countdown
cancel_takes_effect reason s h =
    chosen (in_countdown s.lifecycle.phase)
      (true, record s { is_cancelled = true; reason = reason }) (false, s) h
  where
    chosen : (b : Bool) (x y : Bool × Engine) → b ≡ true → (if b then x else y).1 ≡ x.1
    chosen true x y h = refl
    chosen false x y h = absurd (ground arith)

-- In the countdown phase a cancellation takes effect, whatever other calls come with it.
pub call_all-is_cancelled :
    (cs : List Call) (s : Engine)
    → in_countdown s.lifecycle.phase ≡ true
    → (call_all cs s).is_cancelled ≡ (s.is_cancelled || any_where is_cancel cs)
unfolding cancel_countdown stage_settings
call_all-is_cancelled [] s h = ground arith
call_all-is_cancelled (stop ∷ cs) s h = call_all-is_cancelled cs s h
call_all-is_cancelled (stage text ∷ cs) s h = call_all-is_cancelled cs _ h
call_all-is_cancelled (cancel reason ∷ cs) s h =
    ap (λ t. (call_all cs t).is_cancelled) (cancel_takes_effect reason s h)
    ∙ call_all-is_cancelled cs (record s { is_cancelled = true; reason = reason }) h
    ∙ ground arith

-- The state in which the wait of a tick ends.
abbrev pub waited : World → Order → ℕ → ℕ → Engine → Engine
waited w o total n s = call_all (w.calls_at n) (tick w o total n s)

pub waited-Untouched :
    (w : World) (o : Order) (total n : ℕ) (s : Engine) → Untouched s (waited w o total n s)
waited-Untouched w o total n s =
    Untouched-trans s (tick w o total n s) _ (tick-Untouched w o total n s)
      (call_all-Untouched (w.calls_at n) (tick w o total n s))

pub waited-is_cancelled :
    (w : World) (o : Order) (total n : ℕ) (s : Engine)
    → in_countdown s.lifecycle.phase ≡ true
    → (waited w o total n s).is_cancelled ≡ (s.is_cancelled || any_where is_cancel (w.calls_at n))
waited-is_cancelled w o total n s h =
    call_all-is_cancelled (w.calls_at n) (tick w o total n s)
      (rw (tick-Untouched w o total n s).same_phase h)
    ∙ rw (tick-is_cancelled w o total n s) refl
