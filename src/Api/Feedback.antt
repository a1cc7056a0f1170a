-- ===== src/Api/Feedback.antt =====
-- The feedback endpoints (app/routers/feedback.py). Lower case, JSON and the GitHub client are
-- parameters; the requests have passed their validation, and a response is the record it is made
-- of. Emoji stand without their variation selectors.
use Prim.Native.String.{◌++◌ as append}
use palworld_server_service.Common.{
  ℤ, ℕ, String, Bool, true, false, Option, none, some, List, [], ◌∷◌, str_eq, if◌then◌else◌,
}
use palworld_server_service.Common.Outcome.{Outcome, ok, err, http, Action}
use palworld_server_service.Database.Models.{UserRecord, FeedbackRecord}
use palworld_server_service.Database.Store.{Database}
use palworld_server_service.Database.Records.{
  create_feedback, list_feedbacks, update_feedback_status,
}
use palworld_server_service.Api.Deps.{
  Context, Request, get_current_user_optional, require_permission,
}

-- None and the empty text are both falsy.
pub record FeedbackSubmitRequest : Type 0 where
  pub category : String
  pub title : String
  pub description : String
  pub expected_behavior : String
  pub current_behavior : String
  pub steps_to_reproduce : String
  pub host_environment : String
  pub diagnostic_logs : String
  pub proposed_solution : String
  pub feature_proposal : String
  pub problem_user_story : String
  pub twelve_factor_considerations : String
  pub alternatives_considered : String
  pub documentation_area : String
  pub motivation_missing_context : String
  pub proposed_content : String
  pub vulnerability_summary : String
  pub affected_files_lines : String
  pub cwe_identifier : String
  pub severity : String
  pub poc_reproduction : String
  pub recommended_remediation : String

abbrev pub or_given : String → String → String
or_given value default = if str_eq value "" then default else value

abbrev pub or_na : String → String
or_na value = or_given value "N/A"

abbrev pub joined : List String → String
joined [] = ""
joined (s ∷ parts) = append s (joined parts)

unfoldable pub render_feedback_markdown : FeedbackSubmitRequest → String
render_feedback_markdown req =
    if str_eq req.category "bug_report"
    then joined (
        "## 🐛 Expected Behavior\n"
        ∷ or_na req.expected_behavior
        ∷ "\n\n## 💥 Current Behavior\n"
        ∷ or_na req.current_behavior
        ∷ "\n\n## 📋 Steps to Reproduce\n"
        ∷ or_na req.steps_to_reproduce
        ∷ "\n\n## 🖥\u{fe0f} Environment & Host Diagnostics\n"
        ∷ or_na req.host_environment
        ∷ "\n\n## 📜 Diagnostic Logs & Tracebacks\n```text\n"
        ∷ or_na req.diagnostic_logs
        ∷ "\n```\n\n## 🛠\u{fe0f} Possible Root Cause / Proposed Solution\n"
        ∷ or_na req.proposed_solution
        ∷ "\n"
        ∷ [])
    else if str_eq req.category "feature_request"
    then joined (
        "## 🚀 Feature Proposal\n"
        ∷ or_given req.feature_proposal req.title
        ∷ "\n\n## 🎯 Problem / User Story\n"
        ∷ or_na req.problem_user_story
        ∷ "\n\n## 💡 Proposed Solution & Architecture\n"
        ∷ or_na req.description
        ∷ "\n\n## 🧱 12-Factor & Resilience Considerations\n"
        ∷ or_na req.twelve_factor_considerations
        ∷ "\n\n## 🔄 Alternatives Considered\n"
        ∷ or_na req.alternatives_considered
        ∷ "\n"
        ∷ [])
    else if str_eq req.category "documentation_update"
    then joined (
        "## 📝 Documentation Area\n"
        ∷ or_na req.documentation_area
        ∷ "\n\n## 🎯 Motivation & Missing Context\n"
        ∷ or_na req.motivation_missing_context
        ∷ "\n\n## ✏\u{fe0f} Proposed Content / Diff\n"
        ∷ or_given req.proposed_content (or_na req.description)
        ∷ "\n"
        ∷ [])
    else if str_eq req.category "security_report"
    then joined (
        "## 🛡\u{fe0f} Security Vulnerability Summary\n"
        ∷ or_given req.vulnerability_summary (or_na req.description)
        ∷ "\n\n## 🔍 Vulnerability Details & Attack Vector\n- **Affected File & Line(s)**: "
        ∷ or_na req.affected_files_lines
        ∷ "\n- **CWE Identifier**: "
        ∷ or_na req.cwe_identifier
        ∷ "\n- **Severity**: "
        ∷ or_given req.severity "Medium"
        ∷ "\n\n## 💣 Proof of Concept / Reproduction Flow\n"
        ∷ or_na req.poc_reproduction
        ∷ "\n\n## 🛡\u{fe0f} Recommended Remediation / Defensive Patch\n"
        ∷ or_na req.recommended_remediation
        ∷ "\n"
        ∷ [])
    else or_given req.description req.title

-- What gh issue create gives: the number at the end of its output, where it succeeds in time.
unfoldable pub dispatch_github_issue : Option ℕ → ℕ → Database → Database
dispatch_github_issue none feedback_id db = db
dispatch_github_issue (some issue_num) feedback_id db =
    (update_feedback_status feedback_id "OPEN" (some issue_num) db).1

-- REDIRECT_CATEGORY_MAP
abbrev pub category_of : String → Option String
category_of s =
    if str_eq s "bug"
    then some "bug_report"
    else if str_eq s "bug_report"
    then some "bug_report"
    else if str_eq s "feature"
    then some "feature_request"
    else if str_eq s "feature_request"
    then some "feature_request"
    else if str_eq s "docs"
    then some "documentation_update"
    else if str_eq s "documentation"
    then some "documentation_update"
    else if str_eq s "documentation_update"
    then some "documentation_update"
    else if str_eq s "security"
    then some "security_report"
    else if str_eq s "security_report"
    then some "security_report"
    else none

abbrev pub redirected : Option String → Outcome String
redirected none = err (http 404)
redirected (some category) = ok category

-- The category whose template a client is sent to; `lower` is str.lower.
unfoldable pub redirect_to_github_template : (String → String) → String → Outcome String
redirect_to_github_template lower shortcut = redirected (category_of (lower shortcut))

abbrev pub submitted :
    (FeedbackSubmitRequest → String)
    → FeedbackSubmitRequest
    → String
    → Outcome UserRecord
    → Action Database FeedbackRecord
submitted dumps req now (err e) db = (err e, db)
submitted dumps req now (ok user) db =
    create_feedback req.category req.title (render_feedback_markdown req) (dumps req) user.username
      none now db

-- Behind perm_feedback_submit; the GitHub task runs after the answer.
unfoldable pub submit_feedback :
    (FeedbackSubmitRequest → String)
    → FeedbackSubmitRequest
    → String
    → Context
    → Request
    → Action Database FeedbackRecord
submit_feedback dumps req now ctx r db =
    submitted dumps req now (require_permission "feedback:submit" ctx r db) db

abbrev pub mine_of : Outcome (Option UserRecord) → Outcome (Option String)
mine_of (err e) = err e
mine_of (ok none) = err (http 401)
mine_of (ok (some user)) = ok (some user.username)

abbrev pub filter_user :
    Bool → Option String → Context → Request → Database → Outcome (Option String)
filter_user true submitted_by ctx r db = mine_of (get_current_user_optional ctx r db)
filter_user false submitted_by ctx r db = ok submitted_by

abbrev pub listed :
    Option String
    → Option String
    → ℤ
    → ℤ
    → Database
    → Outcome (Option String)
    → Outcome (List FeedbackRecord)
listed category status limit offset db (err e) = err e
listed category status limit offset db (ok user) =
    ok (list_feedbacks limit offset user category status db)

-- No dependency stands before this endpoint.
unfoldable pub list_feedback_submissions :
    Bool
    → Option String
    → Option String
    → Option String
    → ℤ
    → ℤ
    → Context
    → Request
    → Database
    → Outcome (List FeedbackRecord)
list_feedback_submissions mine submitted_by category status limit offset ctx r db =
    listed category status limit offset db (filter_user mine submitted_by ctx r db)
