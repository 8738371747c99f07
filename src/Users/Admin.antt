-- ===== src/Users/Admin.antt =====
-- The handlers of backend/api/routers/users.py, each with its guards in the order of the source.
-- A handler returns its reply and the database that it leaves; an `HTTPException` commits nothing.
use dbmanager.Base.{
  ℕ, ◌+◌, String, Bool, true, false, Option, none, some, List, [], ◌∷◌, ◌++◌, ◌&&◌, ◌||◌, not, leb,
  ◌==◌, str_eq, is_some, if◌then◌else◌, text_is_empty,
}
use dbmanager.Base.Outcome.{Reply, ok, http}
use dbmanager.Base.Text.{len, contains}
use dbmanager.Json.{Json, null, bool, str, dict, end, field}
use dbmanager.Audit.{Entry, record_audit}
use dbmanager.Users.{
  Role, role_name, is_admin, valid_role, User, World, get_user_by_id, get_user_by_username,
  count_active_admins, put_user, remove_user,
}

pub record UserCreate : Type 0 where
  pub username : String
  pub password : String
  pub role : String

pub record UserUpdate : Type 0 where
  pub role : Option String
  pub is_active : Option Bool

pub record PasswordReset : Type 0 where
  pub new_password : String

-- What the handlers take from outside: `str.lower`, passlib's hash, and the id that the database
-- assigns to a new row.
pub record Services : Type 0 where
  pub lower : String → String
  pub hash : String → String
  pub next_id : List User → ℕ

-- The declared field bounds, which FastAPI checks before the handler runs.
abbrev pub in_bounds : ℕ → ℕ → String → Bool
in_bounds low high s = leb low (len s) && leb (len s) high

-- An audit entry of a handler: `user=current_user`.
abbrev pub entry_by : User → String → ℕ → Json → Entry
entry_by current action target details = record {
  action = action;
  status = "success";
  user_id = some current.id;
  username_snapshot = some current.username;
  resource_type = some "user";
  resource_id = some target;
  details = details;
}

module _ (s : Services) where
  -- `_check_password_strength` raises exactly when this holds
  unfoldable pub too_weak : String → String → Bool
  too_weak username password =
      not (text_is_empty username) && contains (s.lower username) (s.lower password)

  abbrev pub audited : Entry → World → World
  audited e w = record w { audit = record_audit s.lower e w.audit }

  -- INSERT with the column defaults of the `User` model
  unfoldable pub create_user : String → String → Role → List User → User
  create_user username password_hash role us = record {
    id = s.next_id us;
    username = username;
    password_hash = password_hash;
    role = role;
    is_active = true;
    token_version = 0;
    must_change_password = false;
    last_login_at = none;
  }

  insert_new : UserCreate → Role → User → World → Reply User × World
  unfolding create_user
  insert_new body role current w =
      let user = create_user body.username (s.hash body.password) role w.users in
      (
        ok user,
        audited
            (entry_by current "user.created" user.id (
              dict
                (field "username" (str user.username) (field "role" (str (role_name role)) end))))
            (record w { users = w.users ++ user ∷ [] }),
      )

  unfoldable pub create_new_user : UserCreate → User → World → Reply User × World
  unfolding insert_new too_weak
  create_new_user body current w =
      if not (in_bounds 1 128 body.username && in_bounds 8 256 body.password)
      then (http 422, w)
      else elim (valid_role body.role) [
        | none ↦ (http 400, w)
        | some role ↦
            if too_weak body.username body.password
            then (http 400, w)
            else if is_some (get_user_by_username body.username w.users)
            then (http 409, w)
            else insert_new body role current w
      ]

  -- `body.role is not None and body.role != r`
  abbrev pub role_differs : Option String → String → Bool
  role_differs none r = false
  role_differs (some t) r = not (str_eq t r)

  -- `body.is_active is False`
  abbrev pub is_false : Option Bool → Bool
  is_false none = false
  is_false (some b) = not b

  -- An admin may not change the own role or deactivate the own account.
  unfoldable pub locks_self_out : UserUpdate → User → User → Bool
  locks_self_out body user current =
      user.id == current.id
      && (role_differs body.role (role_name user.role) || is_false body.is_active)

  -- `would_demote or would_deactivate`
  unfoldable pub drops_admin : UserUpdate → User → Bool
  drops_admin body user =
      is_admin user.role && role_differs body.role "admin"
      || is_admin user.role && user.is_active && is_false body.is_active

  -- `user.is_active = body.is_active`; deactivation invalidates the outstanding tokens
  unfoldable pub set_active : Option Bool → User → User
  set_active none user = user
  set_active (some b) user = record user {
    is_active = b;
    token_version = if user.is_active && not b then user.token_version + 1 else user.token_version;
  }

  -- The role that the row gets; `none` is the refusal of a name outside `_VALID_ROLES`.
  unfoldable pub new_role : Option String → User → Option Role
  unfolding valid_role
  new_role none user = some user.role
  new_role (some t) user = valid_role t

  commit_update : UserUpdate → User → User → World → Reply User × World
  commit_update body user current w = (
    ok user,
    audited
        (entry_by current "user.updated" user.id (
          dict (
            field "role" (str (role_name user.role))
              (field "is_active" (bool user.is_active) end))))
        (record w { users = put_user user w.users }),
  )

  change_row : UserUpdate → User → User → World → Reply User × World
  unfolding commit_update locks_self_out drops_admin set_active new_role
  change_row body user current w =
      if locks_self_out body user current
      then (http 400, w)
      else if drops_admin body user && leb (count_active_admins w.users) 1
      then (http 400, w)
      else elim (new_role body.role user) [
        | none ↦ (http 400, w)
        | some r ↦
            commit_update body (set_active body.is_active (record user { role = r })) current w
      ]

  unfoldable pub update_user : ℕ → UserUpdate → User → World → Reply User × World
  unfolding change_row
  update_user user_id body current w = elim (get_user_by_id user_id w.users) [
    | none ↦ (http 404, w)
    | some user ↦ change_row body user current w
  ]

  -- The row after a password reset by `current`
  unfoldable pub reset_row : String → User → User → User
  reset_row password user current = record user {
    password_hash = s.hash password;
    token_version = user.token_version + 1;
    must_change_password = if user.id == current.id then user.must_change_password else true;
  }

  unfoldable pub reset_user_password : ℕ → PasswordReset → User → World → Reply (Unit {0}) × World
  unfolding reset_row too_weak
  reset_user_password user_id body current w =
      if not (in_bounds 8 256 body.new_password)
      then (http 422, w)
      else elim (get_user_by_id user_id w.users) [
        | none ↦ (http 404, w)
        | some user ↦ if too_weak user.username body.new_password then (http 400, w) else (
          ok tt,
          audited (entry_by current "user.password_reset" user.id null)
              (record w { users = put_user (reset_row body.new_password user current) w.users }),
        )
      ]

  unfoldable pub delete_user : ℕ → User → World → Reply (Unit {0}) × World
  delete_user user_id current w =
      if user_id == current.id then (http 400, w) else elim (get_user_by_id user_id w.users) [
        | none ↦ (http 404, w)
        | some user ↦
            if is_admin user.role && user.is_active && leb (count_active_admins w.users) 1
            then (http 400, w)
            else (
              ok tt,
              audited
                  (entry_by current "user.deleted" user_id
                    (dict (field "username" (str user.username) end)))
                  (record w { users = remove_user user.id w.users }),
            )
      ]
