-- ===== src/Auth/Access.antt =====
-- `has_permission`.
use palworld_server_service.Common.{String, Bool, true, List, str_eq, if◌then◌else◌, any_where}
use palworld_server_service.Database.Models.{default_role_permissions}

abbrev pub names : String → String → Bool
names wanted p = str_eq p wanted

-- required in permissions
abbrev pub contains : String → List String → Bool
contains wanted = any_where (names wanted)

unfoldable pub has_permission : String → List String → String → Bool
has_permission user_role user_permissions required_permission =
    if str_eq user_role "admin"
    then true
    else if contains "*" user_permissions
    then true
    else if contains required_permission user_permissions
    then true
    else contains required_permission (default_role_permissions user_role)
