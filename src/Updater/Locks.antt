-- ===== src/Updater/Locks.antt =====
-- What the lock file of app/engine/updater.py excludes.
use palworld_server_service.Common.{
  ℕ, ◌+◌, ◌-◌, ◌≤◌, ltb, ◌≡◌, refl, ap, ◌⊎◌, inl, inr, Bool, true, false, Option, none, some, List,
  [], ◌∷◌, arith, length, Bool-cases, All,
}
use palworld_server_service.Common.Text.{Text}
use palworld_server_service.Common.Outcome.{ok}
use palworld_server_service.Updater.Apply.{
  ThreadLoop, no_loop, running_loop, idle_loop, UpdateHost, Watcher, stale_lock_timeout,
  locked_since, is_update_in_progress, spawn_detached_deployer, released_on_error, start_deployment,
  after_check, dispatch_on, target_branch, is_branch_name, apply_update, deployer_exits_from,
  deployer_exits,
}

-- A call of the endpoint with what the host does, and the end of the deployment that runs, if one does.
pub data Event : Type 0 where
  asked : UpdateHost → Option Text → Event
  exited : Bool → Event

abbrev pub step : Event → Watcher → Watcher
step (asked h branch) w = (apply_update h branch w).1
step (exited removes) w = deployer_exits removes w

unfoldable pub run_all : List Event → Watcher → Watcher
run_all [] w = w
run_all (e ∷ events) w = run_all events (step e w)

-- No deployment runs and no lock is held, or one at most and a lock that is not older than t.
abbrev OneSince : ℕ → Watcher → Type 0
OneSince t w =
    ((w.lock_file ≡ none) × (w.running ≡ []))
    ⊎ ((m : ℕ) × ((w.lock_file ≡ some m) × ((t ≤ m) × (length w.running ≤ 1))))

-- A call at most half an hour after t, by a host whose lock file can be inspected and removed.
abbrev pub InWindow : ℕ → Event → Type 0
InWindow t (exited removes) = Unit
InWindow t (asked h branch) =
    (t ≤ h.now)
    × ((h.now ≤ t + stale_lock_timeout) × ((h.stat_works ≡ true) × (h.unlink_works ≡ true)))

length-0 : (ts : List Text) → length ts ≤ 0 → ts ≡ []
length-0 [] h = refl
length-0 (x ∷ ts) h = absurd (omega arith)

module _ (t : ℕ) (h : UpdateHost) (later : t ≤ h.now) (removable : h.unlink_works ≡ true) where
  held :
      (branch : Text) (w : Watcher)
      → w.lock_file ≡ some h.now
      → w.running ≡ []
      → OneSince t (record w { running = branch ∷ w.running })
  held branch w e d = inr (h.now, (e, (later, omega (arith, ap length d))))

  dispatch_on-OneSince :
      (loop : ThreadLoop) (branch : Text) (w : Watcher)
      → w.lock_file ≡ some h.now
      → w.running ≡ []
      → OneSince t (released_on_error h (dispatch_on loop branch w)).1
  dispatch_on-OneSince no_loop branch w e d = inr (h.now, (e, (later, omega (arith, ap length d))))
  dispatch_on-OneSince running_loop branch w e d = held branch w e d
  dispatch_on-OneSince (idle_loop r) branch w e d = held branch w e d

  spawn-OneSince :
      (branch : Text) (w : Watcher)
      → w.lock_file ≡ some h.now
      → w.running ≡ []
      → OneSince t (released_on_error h (spawn_detached_deployer h branch w)).1
  unfolding spawn_detached_deployer
  spawn-OneSince branch w e d = elim (Bool-cases h.deploy_log_opens) [
    | inr shut ↦ simp (shut, removable) (inl (refl, d))
    | inl opens ↦ elim (Bool-cases h.is_posix) [
      | inl posix ↦ simp (opens, posix) (dispatch_on-OneSince h.worker_loop branch w e d)
      | inr windows ↦ elim (Bool-cases h.popen_works) [
        | inl works ↦ simp (opens, windows, works) (held branch w e d)
        | inr fails ↦ simp (opens, windows, fails, removable) (inl (refl, d))
      ]
    ]
  ]

  start-OneSince :
      (runner : Option Bool) (branch : Text) (w : Watcher)
      → w.lock_file ≡ some h.now
      → w.running ≡ []
      → OneSince t (start_deployment h branch runner w).1
  unfolding start_deployment
  start-OneSince (some true) branch w e d = held branch w e d
  start-OneSince (some false) branch w e d = simp removable (inl (refl, d))
  start-OneSince none branch w e d = elim (Bool-cases h.script_is_file) [
    | inl script ↦ simp script (spawn-OneSince branch w e d)
    | inr missing ↦ simp (missing, removable) (inl (refl, d))
  ]

  acquired-OneSince :
      (branch : Text) (w : Watcher)
      → w.lock_file ≡ none
      → w.running ≡ []
      → OneSince t (after_check h branch (false, w)).1
  acquired-OneSince branch w e d = elim (Bool-cases h.lock_works) [
    | inl works ↦
        simp works
          (start-OneSince h.command_runner branch (record w { lock_file = some h.now }) refl d)
    | inr fails ↦ simp fails (inl (e, d))
  ]

  refused :
      (branch : Text) (m : ℕ) (o : Option ℕ) (w : Watcher)
      → h.now ≤ t + stale_lock_timeout
      → h.stat_works ≡ true
      → o ≡ some m
      → t ≤ m
      → OneSince t w
      → OneSince t (after_check h branch (locked_since h o w)).1
  refused branch m none w soon readable e after one = absurd (ground arith)
  refused branch m (some n) w soon readable e after one =
      let same : n ≡ m = ground arith in
      let young : ltb stale_lock_timeout (h.now - n) ≡ false = ground (arith, same) in
      simp (readable, young) one

  apply_update-OneSince :
      (branch : Option Text) (w : Watcher)
      → h.now ≤ t + stale_lock_timeout
      → h.stat_works ≡ true
      → OneSince t w
      → OneSince t (apply_update h branch w).1
  unfolding apply_update is_update_in_progress
  apply_update-OneSince branch w soon readable one =
      elim (Bool-cases (is_branch_name (target_branch branch w))) [
        | inr bad ↦ simp bad one
        | inl good ↦ elim one [
          | inl free ↦
              simp (good, free.0) (acquired-OneSince (target_branch branch w) w free.0 free.1)
          | inr (m, l) ↦ simp good (
              refused (target_branch branch w) m w.lock_file w soon readable l.0 l.1.0 (inr (m, l)))
        ]
      ]

exits-OneSince :
    (t : ℕ) (removes : Bool) (branches : List Text) (w : Watcher)
    → w.running ≡ branches
    → OneSince t w
    → OneSince t (deployer_exits_from removes branches w)
exits-OneSince t removes [] w e one = one
exits-OneSince t removes (branch ∷ rest) w e (inl free) =
    absurd (omega (arith, ap length e, ap length free.1))
exits-OneSince t removes (branch ∷ rest) w e (inr (m, l)) = elim (Bool-cases removes) [
  | inl gone ↦ simp gone (inl (refl, length-0 rest (omega (arith, ap length e, l.1.1))))
  | inr kept ↦ simp kept (inr (m, (l.0, (l.1.0, omega (arith, ap length e, l.1.1)))))
]

step-OneSince :
    (t : ℕ) (e : Event) (w : Watcher) → InWindow t e → OneSince t w → OneSince t (step e w)
unfolding deployer_exits
step-OneSince t (exited removes) w h one = exits-OneSince t removes w.running w refl one
step-OneSince t (asked h branch) w (later, (soon, (readable, removable))) one =
    apply_update-OneSince t h later removable branch w soon readable one

run_all-OneSince :
    (t : ℕ) (events : List Event) (w : Watcher)
    → All (InWindow t) events
    → OneSince t w
    → OneSince t (run_all events w)
unfolding run_all
run_all-OneSince t [] w hs one = one
run_all-OneSince t (e ∷ events) w hs one =
    run_all-OneSince t events (step e w) hs.1 (step-OneSince t e w hs.0 one)

-- However often an update is asked for within half an hour, and whenever a deployment ends and
-- removes the lock file, fails to or is killed, at most one deployment runs at a time, where no lock
-- is held and no deployment runs at first, and each call can inspect and remove the lock file.
pub one_deployment :
    (t : ℕ) (events : List Event) (w : Watcher)
    → w.lock_file ≡ none
    → w.running ≡ []
    → All (InWindow t) events
    → length (run_all events w).running ≤ 1
one_deployment t events w free idle hs = elim (run_all-OneSince t events w hs (inl (free, idle))) [
  | inl none_yet ↦ omega (arith, ap length none_yet.1)
  | inr (m, l) ↦ l.1.1
]

-- On POSIX a call with no injected runner, whose worker thread has no event loop, is answered as a
-- success and takes the lock, and starts no deployment. The branch's name is valid, no lock is held,
-- the script is there, and the lock file and the log can be written.
pub update_never_starts :
    (h : UpdateHost) (branch : Option Text) (w : Watcher)
    → is_branch_name (target_branch branch w) ≡ true
    → w.lock_file ≡ none
    → h.lock_works ≡ true
    → h.command_runner ≡ none
    → h.script_is_file ≡ true
    → h.deploy_log_opens ≡ true
    → h.is_posix ≡ true
    → h.worker_loop ≡ no_loop
    → apply_update h branch w ≡ (ok tt, record w { lock_file = some h.now })
unfolding apply_update is_update_in_progress start_deployment spawn_detached_deployer
update_never_starts h branch w good free locks no_runner script opens posix loopless =
    simp (good, free, locks, no_runner, script, opens, posix, loopless) refl
