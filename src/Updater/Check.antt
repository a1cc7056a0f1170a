-- ===== src/Updater/Check.antt =====
-- `check_for_updates` and what it reads (app/engine/updater.py): the repository's slug, the deployed
-- commit, and GitHub's answers, which are arguments.
use palworld_server_service.Common.{
  ℕ, ltb, ◌==◌, Bool, ◌&&◌, ◌||◌, not, Option, none, some, List, [], ◌∷◌, length, take, drop,
  keep_where, if◌then◌else◌,
}
use palworld_server_service.Common.Text.{Text, codes, text_eq, starts_with, split_on, strip}
use palworld_server_service.Common.Outcome.{Outcome, ok, err, value_error}
use mathlib.Core.List.{reverse}

abbrev pub ends_with : Text → Text → Bool
ends_with suffix t = starts_with (reverse suffix) (reverse t)

-- str.removesuffix
abbrev pub removesuffix : Text → Text → Text
removesuffix suffix t = if ends_with suffix t then reverse (drop (length suffix) (reverse t)) else t

abbrev pub not_empty : Text → Bool
not_empty part = not (text_eq part [])

abbrev pub slug_of : List Text → Outcome (Text × Text)
slug_of [] = err value_error
slug_of (owner ∷ []) = err value_error
slug_of (owner ∷ repo ∷ more) = ok (owner, removesuffix (codes ".git") repo)

-- Of the path of the URL. Stripping slashes first drops only parts that are empty.
unfoldable pub parse_repo_slug : Text → Outcome (Text × Text)
parse_repo_slug path = slug_of (keep_where not_empty (split_on 47 path))

-- git rev-parse HEAD where there is a .git directory, else the metadata files in their order; a file
-- or an output that cannot be read is none.
unfoldable pub first_non_empty : List (Option Text) → Text
first_non_empty [] = codes "unknown"
first_non_empty (none ∷ sources) = first_non_empty sources
first_non_empty (some t ∷ sources) =
    let rest = first_non_empty sources in
    let content = strip t in if text_eq content [] then rest else content

-- Why GitHub's answer was no commit.
pub data CheckError : Type 0 where
  bad_url : CheckError
  rate_limited : ℕ → CheckError
  http_status : ℕ → CheckError
  network : CheckError
  bad_payload : CheckError

-- A response: its status, and the commit's sha and message where its payload can be read; the
-- comparison gives ahead_by.
pub data Response (A : Type 0) : Type 0 where
  unreachable : Response A
  answered : ℕ → Option A → Response A

pub record UpdateState : Type 0 where
  pub update_available : Bool
  pub current_commit : Text
  pub latest_commit : Text
  pub commits_behind : ℕ
  pub latest_commit_message : Text
  pub last_error : Option CheckError

abbrev pub failed_check : CheckError → UpdateState → UpdateState
failed_check e s = record s { last_error = some e }

-- message.split("\n", 1)[0].strip()
abbrev pub first_part : List Text → Text
first_part [] = []
first_part (line ∷ lines) = strip line

abbrev pub summary_line : Text → Text
summary_line message = first_part (split_on 10 message)

-- Two hashes that agree in their first seven digits, as the code compares them.
unfoldable pub same_commit : Text → Text → Bool
same_commit local_sha remote_sha =
    not (text_eq local_sha (codes "unknown"))
    && (text_eq local_sha remote_sha
        || (starts_with (take 7 remote_sha) local_sha || starts_with (take 7 local_sha) remote_sha))

abbrev pub behind : ℕ → UpdateState → UpdateState
behind n s = record s { commits_behind = n; update_available = ltb 0 n }

-- The comparison of the two commits; on a status other than 200 one commit is assumed.
abbrev pub compare_commits : Response ℕ → UpdateState → UpdateState
compare_commits unreachable s = failed_check network s
compare_commits (answered status none) s =
    if status == 200 then failed_check bad_payload s else behind 1 s
compare_commits (answered status (some ahead_by)) s =
    if status == 200 then behind ahead_by s else behind 1 s

abbrev pub compare_known : Response ℕ → Text → Text → UpdateState → UpdateState
compare_known compared local_sha remote_sha s =
    if not (text_eq local_sha (codes "unknown")) && (not_empty local_sha && not_empty remote_sha)
    then compare_commits compared s
    else behind 0 s

abbrev pub latest : Text → Text → UpdateState → UpdateState
latest remote_sha message s = record s {
  latest_commit = remote_sha;
  latest_commit_message = summary_line message;
  last_error = none;
}

abbrev pub check_commit : Response ℕ → Text → Text × Text → UpdateState → UpdateState
check_commit compared local_sha (remote_sha, message) s =
    if same_commit local_sha remote_sha
    then behind 0 (latest remote_sha message s)
    else compare_known compared local_sha remote_sha (latest remote_sha message s)

abbrev pub from_payload : Option (Text × Text) → Response ℕ → Text → UpdateState → UpdateState
from_payload none compared local_sha s = failed_check bad_payload s
from_payload (some commit) compared local_sha s = check_commit compared local_sha commit s

-- raise_for_status lets the statuses from 200 to 299 pass.
abbrev pub read_commit : Response (Text × Text) → Response ℕ → Text → UpdateState → UpdateState
read_commit unreachable compared local_sha s = failed_check network s
read_commit (answered status payload) compared local_sha s =
    if status == 403 || status == 429
    then failed_check (rate_limited status) s
    else if ltb status 200 || ltb 299 status
    then failed_check (http_status status) s
    else from_payload payload compared local_sha s

abbrev pub check_slug :
    Outcome (Text × Text) → Response (Text × Text) → Response ℕ → Text → UpdateState → UpdateState
check_slug (err e) commit compared local_sha s = failed_check bad_url s
check_slug (ok slug) commit compared local_sha s = read_commit commit compared local_sha s

unfoldable pub check_for_updates :
    Text → List (Option Text) → Response (Text × Text) → Response ℕ → UpdateState → UpdateState
check_for_updates path commit_sources commit compared s =
    let local_sha = first_non_empty commit_sources in
    check_slug (parse_repo_slug path) commit compared local_sha
      (record s { current_commit = local_sha })
