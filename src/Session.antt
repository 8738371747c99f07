-- ===== src/Session.antt =====
-- backend/api/deps.py: who a request comes from (`get_current_user`) and what that user may do
-- (`require_role`). The decoding of a token, with the check of its signature, expiry, issuer and
-- audience, is python-jose's and a parameter.
pub mod Access
pub mod Revocation
mod Tests
use dbmanager.Base.{
  ℕ, String, Bool, true, false, Option, none, some, List, [], ◌∷◌, ◌&&◌, ◌||◌, not, any, ◌==◌,
  str_eq, or_else, is_some, if◌then◌else◌, text_is_empty,
}
use dbmanager.Base.Outcome.{Reply, ok, http}
use dbmanager.Json.{null}
use dbmanager.Audit.{Entry, record_audit}
use dbmanager.Users.{Role, role_name, User, World, get_user_by_username}

pub record Request : Type 0 where
  pub method : String
  pub path : String
  pub bearer : Option String
  pub cookie : Option String
  pub x_requested_with : Option String

-- The claims that the code reads: `sub` where it is a string, `tv` where it is an int.
pub record Payload : Type 0 where
  pub sub : Option String
  pub tv : Option ℕ

-- `str.lower`, and `AuthManager.decode_token`
pub record Tokens : Type 0 where
  pub lower : String → String
  pub decode_token : String → Option Payload

abbrev pub state_changing : String → Bool
state_changing m = any (str_eq m) ("POST" ∷ "PUT" ∷ "PATCH" ∷ "DELETE" ∷ [])

unfoldable pub pw_change_allowed : String → Bool
pw_change_allowed p =
    any (str_eq p) ("/api/v1/auth/me" ∷ "/api/v1/auth/me/password" ∷ "/api/v1/auth/logout" ∷ [])

-- A `str` that is there and is not empty.
unfoldable pub truthy : Option String → Option String
truthy none = none
truthy (some t) = if text_is_empty t then none else some t

-- `a or b`
unfoldable pub first_truthy : Option String → Option String → Option String
unfolding truthy
first_truthy a b = elim (truthy a) [ none ↦ truthy b | some t ↦ some t ]

unfoldable pub right_version : Payload → User → Bool
right_version p u = elim p.tv [ none ↦ false | some v ↦ v == u.token_version ]

unfoldable pub has_role : List String → User → Bool
has_role roles u = any (str_eq (role_name u.role)) roles

module _ (t : Tokens) where
  -- The session cookie alone does not authenticate a state-changing request.
  unfoldable pub csrf_refused : Request → Bool
  unfolding truthy
  csrf_refused r =
      is_some (truthy r.cookie)
      && not (is_some (truthy r.bearer))
      && state_changing r.method
      && not (str_eq (t.lower (or_else r.x_requested_with "")) "xmlhttprequest")

  -- The tests on the row that the token names.
  unfoldable pub check_user : Request → Payload → User → Reply User
  check_user r p u =
      if not u.is_active
      then http 401
      else if not (right_version p u)
      then http 401
      else if u.must_change_password && not (pw_change_allowed r.path)
      then http 403
      else ok u

  -- `not isinstance(subject, str) or not subject` is the absence of a truthy `sub`.
  unfoldable pub check_payload : Request → Payload → World → Reply User
  check_payload r p w = elim (truthy p.sub) [
    | none ↦ http 401
    | some name ↦ elim (get_user_by_username name w.users) [
      | none ↦ http 401
      | some u ↦ check_user r p u
    ]
  ]

  unfoldable pub get_current_user : Request → World → Reply User
  get_current_user r w =
      if csrf_refused r then http 403 else elim (first_truthy r.bearer r.cookie) [
        | none ↦ http 401
        | some token ↦ elim (t.decode_token token) [
          | none ↦ http 401
          | some p ↦ check_payload r p w
        ]
      ]

  -- `require_role(*roles)`: a refusal is written to the audit log before it is raised.
  unfoldable pub require_role : List String → Request → World → Reply User × World
  require_role roles r w = elim (get_current_user r w) [
    | http code ↦ (http code, w)
    | ok u ↦ if has_role roles u then (ok u, w) else (
      http 403,
      record w {
        audit =
            record_audit t.lower
              (record {
                action = "access.denied";
                status = "denied";
                user_id = some u.id;
                username_snapshot = some u.username;
                resource_type = some r.path;
                resource_id = none;
                details = null;
              })
              w.audit;
      },
    )
  ]
