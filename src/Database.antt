-- ===== src/Database.antt =====
-- app/database/models.py and app/database/db.py: the tables of palmanager.db and the methods of
-- `DatabaseManager`. The proofs are in Database/Integrity.antt and the modules beside it.
pub mod Models
pub mod Store
pub mod Users
pub mod Records
pub mod Tables
pub mod Grants
pub mod Integrity
pub mod Admins
pub mod Permissions
pub mod Creation
pub mod Deletion
