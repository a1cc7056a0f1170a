-- ===== src/Database/Models.antt =====
-- app/database/models.py: the records of the tables and the default permissions of each role.
use palworld_server_service.Common.{ℕ, String, Bool, Option, List, [], ◌∷◌, str_eq, if◌then◌else◌}

abbrev pub all_permissions : List String
all_permissions =
    "server:reboot" ∷ "server:settings" ∷ "player:kick" ∷ "player:ban" ∷ "player:broadcast"
    ∷ "logs:view" ∷ "feedback:submit" ∷ "users:manage" ∷ "system:update" ∷ []

abbrev pub operator_permissions : List String
operator_permissions =
    "server:reboot" ∷ "server:settings" ∷ "player:kick" ∷ "player:ban" ∷ "player:broadcast"
    ∷ "logs:view" ∷ "feedback:submit" ∷ "system:update" ∷ []

abbrev pub viewer_permissions : List String
viewer_permissions = "logs:view" ∷ "feedback:submit" ∷ []

-- DEFAULT_ROLE_PERMISSIONS.get(role, [])
unfoldable pub default_role_permissions : String → List String
default_role_permissions role =
    if str_eq role "admin"
    then all_permissions
    else if str_eq role "operator"
    then operator_permissions
    else if str_eq role "viewer"
    then viewer_permissions
    else []

pub record UserRecord : Type 0 where
  pub id : ℕ
  pub username : String
  pub password_hash : String
  pub salt : String
  pub email : String
  pub role : String
  pub is_active : Bool
  pub created_at : String
  pub last_login : Option String

-- The table's own row number is never read, so it is left out.
pub record UserPermissionRecord : Type 0 where
  pub user_id : ℕ
  pub permission : String

pub record LoginAuditRecord : Type 0 where
  pub id : ℕ
  pub username : String
  pub timestamp : String
  pub ip_address : String
  pub user_agent : String
  pub status : String
  pub failure_reason : String

pub record FeedbackRecord : Type 0 where
  pub id : ℕ
  pub category : String
  pub title : String
  pub description : String
  pub metadata_json : String
  pub submitted_by : String
  pub status : String
  pub github_issue_number : Option ℕ
  pub created_at : String
