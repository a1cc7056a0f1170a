-- ===== src/Examples/Members.antt =====
-- The theorems about the rights of accounts and about feedback at the servers of Examples.
use palworld_server_service.Common.{
  pos, ℕ, String, ◌≡◌, refl, true, false, ◌||◌, none, some, [], ◌∷◌, arith, str_eq, eq_iff, ◌≢◌,
}
use palworld_server_service.Common.Text.{text_eq, starts_with}
use palworld_server_service.Common.Outcome.{ok}
use palworld_server_service.Database.Models.{
  UserRecord, viewer_permissions, default_role_permissions,
}
use palworld_server_service.Database.Users.{
  get_user_by_username, get_user_by_id, get_user_permissions, row_to_user, create_user, count_users,
}
use palworld_server_service.Auth.Tokens.{hash_password}
use palworld_server_service.Auth.Access.{contains, has_permission}
use palworld_server_service.Auth.Bootstrap.{Server, bootstrap_admin_user}
use palworld_server_service.Api.Deps.{
  require_permission, fallback_user, get_current_user, get_client_ip, is_local,
}
use palworld_server_service.Api.Accounts.{accepted, register}
use palworld_server_service.Api.Members.{update_user_role}
use palworld_server_service.Api.Serve.{start}
use palworld_server_service.Api.FirstStart.{start-fresh-IsGoverned}
use palworld_server_service.Api.Rights.{register_least_privilege, update_user_role_rights}
use palworld_server_service.Api.Feedback.{
  FeedbackSubmitRequest, render_feedback_markdown, submit_feedback, list_feedback_submissions,
}
use palworld_server_service.Api.Disclosed.{feedback_disclosed}
use palworld_server_service.Examples.Toy.{toy}
use palworld_server_service.Examples.{desk, supply, remote, local, first, admin}

register_least_privilege_example :
    (user : UserRecord) × (get_user_by_username "ann"
        (register desk "ann" "pass" "ann@example.org" supply first).1.db
      ≡ some user)
    × (user.role ≡ "viewer")
    × (accepted desk "pass" (some user) ≡ some user)
    × (has_permission user.role
          (get_user_permissions user.id
            (register desk "ann" "pass" "ann@example.org" supply first).1.db)
          "users:manage"
        ≡ contains "users:manage" viewer_permissions)
unfolding start bootstrap_admin_user get_user_by_username count_users hash_password create_user
    get_user_by_id row_to_user
register_least_privilege_example =
    register_least_privilege desk "ann" "pass" "ann@example.org" supply first "users:manage"
      (start-fresh-IsGoverned toy (some "pw") false supply).consistent refl

abbrev second : Server
second = (register desk "ann" "pass" "ann@example.org" supply first).1

abbrev ann : UserRecord
ann = record {
  id = 2;
  username = "ann";
  password_hash = "pass";
  salt = "salt";
  email = "ann@example.org";
  role = "viewer";
  is_active = true;
  created_at = "2026-01-01";
  last_login = none;
}

update_user_role_rights_example :
    (user : UserRecord) × (get_user_by_id 2 (update_user_role 2 "operator" second).1.db ≡ some user)
    × (user.role ≡ "operator")
    × (has_permission user.role
          (get_user_permissions 2 (update_user_role 2 "operator" second).1.db)
          "player:kick"
        ≡ (str_eq "operator" "admin"
            || contains "player:kick" (default_role_permissions "operator")))
    × ((j : ℕ)
        → j ≢ 2
        → contains "player:kick"
            (get_user_permissions j (update_user_role 2 "operator" second).1.db)
          ≡ contains "player:kick" (get_user_permissions j second.db))
unfolding start bootstrap_admin_user get_user_by_username count_users hash_password create_user
    get_user_by_id row_to_user register
update_user_role_rights_example =
    update_user_role_rights 2 "operator" second ann "player:kick" refl refl
      (ground (arith, eq_iff "operator" "viewer"))

abbrev report : FeedbackSubmitRequest
report = record {
  category = "security_report";
  title = "A hole";
  description = "";
  expected_behavior = "";
  current_behavior = "";
  steps_to_reproduce = "";
  host_environment = "";
  diagnostic_logs = "";
  proposed_solution = "";
  feature_proposal = "";
  problem_user_story = "";
  twelve_factor_considerations = "";
  alternatives_considered = "";
  documentation_area = "";
  motivation_missing_context = "";
  proposed_content = "";
  vulnerability_summary = "Tokens leak";
  affected_files_lines = "";
  cwe_identifier = "";
  severity = "";
  poc_reproduction = "";
  recommended_remediation = "";
}

abbrev dump : FeedbackSubmitRequest → String
dump req = req.vulnerability_summary

feedback_disclosed_example :
    list_feedback_submissions false none none none
      (pos 50)
      (pos 0)
      desk
      remote
      (submit_feedback dump report "2026-01-01" desk local first.db).1
    ≡ ok (
        record {
          id = 1;
          category = "security_report";
          title = "A hole";
          description = render_feedback_markdown report;
          metadata_json = "Tokens leak";
          submitted_by = "admin";
          status = "OPEN";
          github_issue_number = none;
          created_at = "2026-01-01";
        }
        ∷ [])
unfolding start bootstrap_admin_user get_user_by_username count_users hash_password create_user
    get_user_by_id row_to_user get_current_user starts_with is_local get_client_ip
    require_permission fallback_user has_permission get_user_permissions text_eq
feedback_disclosed_example =
    feedback_disclosed dump report "2026-01-01" desk local remote first.db admin 49 refl
