-- ===== src/Users.antt =====
-- The `users` table and its queries: backend/db/models/user.py, backend/db/repositories/users_repo.py
-- and `_count_active_admins` of backend/api/routers/users.py.
pub mod Table
pub mod Admin
pub mod Invariant
pub mod Sequence
pub mod Tests
use dbmanager.Base.{
  ℕ, String, Bool, true, false, Option, none, some, List, [], ◌∷◌, ◌++◌, keep, find, count, ◌&&◌,
  not, ◌==◌, str_eq, if◌then◌else◌,
}
use dbmanager.Audit.{Entry, AuditLog}

pub data Role : Type 0 where
  admin operator viewer : Role

abbrev pub role_name : Role → String
role_name admin = "admin"
role_name operator = "operator"
role_name viewer = "viewer"

abbrev pub is_admin : Role → Bool
is_admin admin = true
is_admin _ = false

-- `role in _VALID_ROLES`, with the role that it names
unfoldable pub valid_role : String → Option Role
valid_role r =
    if str_eq r "admin"
    then some admin
    else if str_eq r "operator"
    then some operator
    else if str_eq r "viewer"
    then some viewer
    else none

pub record User : Type 0 where
  pub id : ℕ
  pub username : String
  pub password_hash : String
  pub role : Role
  pub is_active : Bool
  pub token_version : ℕ
  pub must_change_password : Bool
  pub last_login_at : Option ℕ

-- The database: its rows, and the audit log beside them.
pub record World : Type 0 where
  pub users : List User
  pub audit : AuditLog

abbrev pub has_id : ℕ → User → Bool
has_id i u = u.id == i

abbrev pub has_name : String → User → Bool
has_name n u = str_eq u.username n

unfoldable pub get_user_by_id : ℕ → List User → Option User
get_user_by_id i us = find (has_id i) us

unfoldable pub get_user_by_username : String → List User → Option User
get_user_by_username n us = find (has_name n) us

abbrev pub is_active_admin : User → Bool
is_active_admin u = is_admin u.role && u.is_active

unfoldable pub count_active_admins : List User → ℕ
count_active_admins us = count is_active_admin us

-- The UPDATE that a commit issues for a changed row object.
unfoldable pub put_user : User → List User → List User
put_user u [] = []
put_user u (v ∷ us) = let rest = put_user u us in if v.id == u.id then u ∷ us else v ∷ rest

-- The DELETE for a row object.
unfoldable pub remove_user : ℕ → List User → List User
remove_user i us = keep (λ u. not (has_id i u)) us

-- `update_last_login`
unfoldable pub update_last_login : ℕ → User → List User → List User
unfolding put_user
update_last_login now u us = put_user (record u { last_login_at = some now }) us
