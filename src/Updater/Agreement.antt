-- ===== src/Updater/Agreement.antt =====
-- That the state of app/engine/updater.py agrees with itself.
use palworld_server_service.Common.{
  ℕ, ltb, ◌==◌, ◌&&◌, ◌||◌, not, Option, none, some, List, ◌≡◌, refl, inl, inr, Bool-cases,
}
use palworld_server_service.Common.Text.{Text, codes, text_eq}
use palworld_server_service.Common.Outcome.{Outcome, ok, err}
use palworld_server_service.Updater.Check.{
  not_empty, parse_repo_slug, first_non_empty, Response, UpdateState, same_commit, compare_commits,
  latest, check_commit, from_payload, read_commit, check_slug, check_for_updates, unreachable,
  answered,
}

-- The flag says what the count says.
pub IsConsistent : UpdateState → Type 0
IsConsistent s = s.update_available ≡ ltb 0 s.commits_behind

compare_commits-IsConsistent :
    (r : Response ℕ) (s : UpdateState) → IsConsistent s → IsConsistent (compare_commits r s)
unfolding IsConsistent
compare_commits-IsConsistent unreachable s h = h
compare_commits-IsConsistent (answered status none) s h = elim (Bool-cases (status == 200)) [
  | inl fine ↦ simp fine h
  | inr other ↦ simp other refl
]
compare_commits-IsConsistent (answered status (some n)) s h = elim (Bool-cases (status == 200)) [
  | inl fine ↦ simp fine refl
  | inr other ↦ simp other refl
]

check_commit-IsConsistent :
    (r : Response ℕ) (local_sha : Text) (commit : Text × Text) (s : UpdateState)
    → IsConsistent s
    → IsConsistent (check_commit r local_sha commit s)
unfolding IsConsistent
check_commit-IsConsistent r local_sha (remote_sha, message) s h =
    elim (Bool-cases (same_commit local_sha remote_sha)) [
      | inl same ↦ simp same refl
      | inr other ↦
          elim (Bool-cases (
            not (text_eq local_sha (codes "unknown"))
            && (not_empty local_sha && not_empty remote_sha))) [
              | inl known ↦
                  simp (other, known)
                    (compare_commits-IsConsistent r (latest remote_sha message s) h)
              | inr unknown ↦ simp (other, unknown) refl
            ]
    ]

from_payload-IsConsistent :
    (payload : Option (Text × Text)) (r : Response ℕ) (local_sha : Text) (s : UpdateState)
    → IsConsistent s
    → IsConsistent (from_payload payload r local_sha s)
unfolding IsConsistent
from_payload-IsConsistent none r local_sha s h = h
from_payload-IsConsistent (some commit) r local_sha s h =
    check_commit-IsConsistent r local_sha commit s h

read_commit-IsConsistent :
    (c : Response (Text × Text)) (r : Response ℕ) (local_sha : Text) (s : UpdateState)
    → IsConsistent s
    → IsConsistent (read_commit c r local_sha s)
unfolding IsConsistent
read_commit-IsConsistent unreachable r local_sha s h = h
read_commit-IsConsistent (answered status payload) r local_sha s h =
    elim (Bool-cases (status == 403 || status == 429)) [
      | inl limited ↦ simp limited h
      | inr free ↦ elim (Bool-cases (ltb status 200 || ltb 299 status)) [
        | inl bad ↦ simp (free, bad) h
        | inr good ↦ simp (free, good) (from_payload-IsConsistent payload r local_sha s h)
      ]
    ]

-- Whatever GitHub answers, a check keeps the flag and the count of the state in agreement.
pub check_for_updates-IsConsistent :
    (path : Text) (sources : List (Option Text)) (commit : Response (Text × Text))
    (compared : Response ℕ) (s : UpdateState)
    → IsConsistent s
    → IsConsistent (check_for_updates path sources commit compared s)
unfolding check_for_updates IsConsistent
check_for_updates-IsConsistent path sources commit compared s h = from (parse_repo_slug path)
  where
    from :
        (slug : Outcome (Text × Text))
        → IsConsistent (
            check_slug slug commit compared
              (first_non_empty sources)
              (record s { current_commit = first_non_empty sources }))
    from (err e) = h
    from (ok owner) =
        read_commit-IsConsistent commit compared (first_non_empty sources)
          (record s { current_commit = first_non_empty sources }) h
