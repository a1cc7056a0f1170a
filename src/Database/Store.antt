-- ===== src/Database/Store.antt =====
-- SCHEMA_DDL of app/database/db.py: the five tables. Rows stand in the order of their keys, which
-- AUTOINCREMENT hands out in increasing order and never again, so `ORDER BY id` reads a table
-- forwards or backwards.
use palworld_server_service.Common.{ℕ, String, List, []}
use palworld_server_service.Database.Models.{
  UserRecord, UserPermissionRecord, LoginAuditRecord, FeedbackRecord,
}

pub record Database : Type 0 where
  pub users : List UserRecord
  pub next_user_id : ℕ
  pub user_permissions : List UserPermissionRecord
  pub login_audit : List LoginAuditRecord
  pub next_audit_id : ℕ
  pub feedback_submissions : List FeedbackRecord
  pub next_feedback_id : ℕ
  pub system_metadata : List (String × String)

-- What `initialize` leaves of a fresh file.
abbrev pub empty_database : Database
empty_database = record {
  users = [];
  next_user_id = 1;
  user_permissions = [];
  login_audit = [];
  next_audit_id = 1;
  feedback_submissions = [];
  next_feedback_id = 1;
  system_metadata = [];
}
