-- ===== src/Database/Records.antt =====
-- The audit trail, feedback and metadata sections of `DatabaseManager` (app/database/db.py).
use mathlib.Core.List.{reverse}
use palworld_server_service.Common.{
  ℤ, pos, negsuc, ℕ, suc, String, Bool, true, ◌&&◌, Option, none, some, List, [], ◌∷◌, ◌++◌, map,
  take, drop, ◌==◌, str_eq, if◌then◌else◌, find_where, keep_where, update_where,
}
use palworld_server_service.Common.Outcome.{ok, Action}
use palworld_server_service.Database.Models.{LoginAuditRecord, FeedbackRecord}
use palworld_server_service.Database.Store.{Database}

-- record_login_audit. `now` is the clock's reading.
unfoldable pub record_login_audit :
    String → String → String → String → String → String → Action Database LoginAuditRecord
record_login_audit username ip_address user_agent status failure_reason now db =
    let row : LoginAuditRecord = record {
      id = db.next_audit_id;
      username = username;
      timestamp = now;
      ip_address = ip_address;
      user_agent = user_agent;
      status = status;
      failure_reason = failure_reason;
    } in
    (
      ok row,
      record db { login_audit = db.login_audit ++ row ∷ []; next_audit_id = suc db.next_audit_id },
    )

-- To SQLite a negative LIMIT is none at all, and a negative OFFSET is 0.
abbrev pub limited {ℓ} : {A : Type ℓ} → ℤ → List A → List A
limited (pos n) rows = take n rows
limited (negsuc n) rows = rows

abbrev pub skipped {ℓ} : {A : Type ℓ} → ℤ → List A → List A
skipped (pos n) rows = drop n rows
skipped (negsuc n) rows = rows

-- ORDER BY id DESC LIMIT ? OFFSET ?
abbrev pub page {ℓ} : {A : Type ℓ} → ℤ → ℤ → List A → List A
page limit offset rows = limited limit (skipped offset (reverse rows))

unfoldable pub list_login_audits : ℤ → ℤ → Database → List LoginAuditRecord
list_login_audits limit offset db = page limit offset db.login_audit

unfoldable pub create_feedback :
    String → String → String → String → String → Option ℕ → String → Action Database FeedbackRecord
create_feedback category title description metadata_json submitted_by github_issue_number now db =
    let row : FeedbackRecord = record {
      id = db.next_feedback_id;
      category = category;
      title = title;
      description = description;
      metadata_json = metadata_json;
      submitted_by = submitted_by;
      status = "OPEN";
      github_issue_number = github_issue_number;
      created_at = now;
    } in
    (
      ok row,
      record db {
        feedback_submissions = db.feedback_submissions ++ row ∷ [];
        next_feedback_id = suc db.next_feedback_id;
      },
    )

-- int(row[...]) if row[...] else None: issue number 0 reads as None.
abbrev pub non_zero : Option ℕ → Option ℕ
non_zero none = none
non_zero (some n) = if n == 0 then none else some n

unfoldable pub row_to_feedback : FeedbackRecord → FeedbackRecord
row_to_feedback row = record row { github_issue_number = non_zero row.github_issue_number }

-- ? IS NULL OR column = ?
abbrev matches : Option String → String → Bool
matches none column = true
matches (some wanted) column = str_eq column wanted

abbrev pub passes_filter : Option String → Option String → Option String → FeedbackRecord → Bool
passes_filter submitted_by category status row =
    matches submitted_by row.submitted_by
    && (matches category row.category && matches status row.status)

unfoldable pub list_feedbacks :
    ℤ → ℤ → Option String → Option String → Option String → Database → List FeedbackRecord
list_feedbacks limit offset submitted_by category status db = map row_to_feedback (
    page limit offset
      (keep_where (passes_filter submitted_by category status) db.feedback_submissions))

abbrev pub has_feedback_id : ℕ → FeedbackRecord → Bool
has_feedback_id feedback_id row = row.id == feedback_id

abbrev feedback_of : Option FeedbackRecord → Option FeedbackRecord
feedback_of none = none
feedback_of (some row) = some (row_to_feedback row)

unfoldable pub get_feedback : ℕ → Database → Option FeedbackRecord
get_feedback feedback_id db =
    feedback_of (find_where (has_feedback_id feedback_id) db.feedback_submissions)

abbrev pub set_status : String → Option ℕ → FeedbackRecord → FeedbackRecord
set_status status none row = record row { status = status }
set_status status (some number) row = record row {
  status = status;
  github_issue_number = some number;
}

unfoldable pub update_feedback_status :
    ℕ → String → Option ℕ → Action Database (Option FeedbackRecord)
update_feedback_status feedback_id status github_issue_number db =
    let db' : Database = record db {
      feedback_submissions =
          update_where (has_feedback_id feedback_id) (set_status status github_issue_number)
            db.feedback_submissions;
    } in
    (ok (get_feedback feedback_id db'), db')

abbrev pub lookup_meta : String → List (String × String) → Option String
lookup_meta key [] = none
lookup_meta key ((k, v) ∷ rows) = if str_eq k key then some v else lookup_meta key rows

unfoldable pub get_meta : String → Database → Option String
get_meta key db = lookup_meta key db.system_metadata

abbrev pub upsert_meta : String → String → List (String × String) → List (String × String)
upsert_meta key value [] = (key, value) ∷ []
upsert_meta key value ((k, v) ∷ rows) =
    if str_eq k key then (k, value) ∷ rows else (k, v) ∷ upsert_meta key value rows

unfoldable pub set_meta : String → String → Action Database (Unit {0})
set_meta key value db =
    (ok tt, record db { system_metadata = upsert_meta key value db.system_metadata })
