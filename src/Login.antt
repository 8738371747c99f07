-- ===== src/Login.antt =====
-- backend/api/routers/auth.py and `authenticate` of backend/core/auth.py: the login rate limiter,
-- the login handler and the change of the own password. Times are in nanoseconds of
-- `time.monotonic()`. Password hashing and the signing of tokens are passlib's and python-jose's.
pub mod Rate
mod Branches
pub mod Window
pub mod Lockout
mod Tests
use dbmanager.Base.{
  ℕ, ◌+◌, ◌-◌, ◌*◌, String, Bool, true, false, Option, none, some, List, [], ◌∷◌, ◌++◌, ◌&&◌, not,
  ltb, leb, ◌==◌, str_eq, length, drop, if◌then◌else◌,
}
use dbmanager.Base.Outcome.{Reply, ok, http}
use dbmanager.Base.Text.{len, contains}
use dbmanager.Json.{Json, null, str, dict, end, field}
use dbmanager.Audit.{Entry, record_audit}
use dbmanager.Users.{User, World, get_user_by_username, put_user, update_last_login}
use dbmanager.Login.Rate.{
  Limiter, Reason, account_locked, ip_rate, user_rate, rate_check, record_failure, record_success,
}

-- passlib's `verify` and `hash`, python-jose's `encode` on the subject and the token version.
pub record Crypto : Type 0 where
  pub lower : String → String
  pub verify : String → String → Bool
  pub hash : String → String
  pub encode : String → ℕ → String

-- One call of `/token`: who asks, the time of the rate check, and the time of the note of a failure
-- (`failed_at`) and of the last login (`date`).
pub record Attempt : Type 0 where
  pub ip : String
  pub username : String
  pub password : String
  pub at : ℕ
  pub failed_at : ℕ
  pub date : ℕ

pub record State : Type 0 where
  pub limiter : Limiter
  pub world : World

abbrev pub reason_name : Reason → String
reason_name account_locked = "account_locked"
reason_name ip_rate = "ip_rate"
reason_name user_rate = "user_rate"

abbrev pub denial_action : Reason → String
denial_action account_locked = "auth.login.lockout"
denial_action _ = "auth.login.rate_limited"

abbrev pub auth_entry : String → String → Option User → Json → Entry
auth_entry action status user details = record {
  action = action;
  status = status;
  user_id = elim user [ none ↦ none | some u ↦ some u.id ];
  username_snapshot = elim user [ none ↦ none | some u ↦ some u.username ];
  resource_type = some "auth";
  resource_id = none;
  details = details;
}

abbrev pub login_details : String → Json
login_details username = dict (field "username" (str username) end)

module _ (c : Crypto) where
  -- `AuthManager.authenticate`, with the row that it finds; `burn_cycles` only takes time
  unfoldable pub authenticate : Attempt → World → Option User
  authenticate a w = elim (get_user_by_username a.username w.users) [
    | none ↦ none
    | some u ↦ if u.is_active && c.verify a.password u.password_hash then some u else none
  ]

  abbrev pub note : Entry → World → World
  note e w = record w { audit = record_audit c.lower e w.audit }

  -- the branch of a refused rate check
  unfoldable pub refuse : Attempt → Reason → State → Reply String × State
  refuse a reason s = (
    http 429,
    record s {
      world =
          note
            (auth_entry (denial_action reason) "denied" none (
              dict (
                field "username" (str a.username) (field "reason" (str (reason_name reason)) end))))
            s.world;
    },
  )

  -- the branch of a failed authentication
  unfoldable pub fail : Attempt → State → Reply String × State
  fail a s = (
    http 401,
    record {
      limiter = record_failure a.ip a.username a.failed_at s.limiter;
      world = note (auth_entry "auth.login" "failure" none (login_details a.username)) s.world;
    },
  )

  -- the branch of a successful authentication
  unfoldable pub succeed : Attempt → User → State → Reply String × State
  succeed a u s = (
    ok (c.encode u.username u.token_version),
    record {
      limiter = record_success a.username s.limiter;
      world =
          note (auth_entry "auth.login" "success" (some u) (login_details u.username))
            (record s.world { users = update_last_login a.date u s.world.users });
    },
  )

  unfoldable pub login_for_access_token : Attempt → State → Reply String × State
  login_for_access_token a s =
      let (refusal, limiter) = rate_check a.ip a.username a.at s.limiter in
      let s' : State = record s { limiter = limiter } in
      elim refusal [
        | some reason ↦ refuse a reason s'
        | none ↦ elim (authenticate a s'.world) [ none ↦ fail a s' | some u ↦ succeed a u s' ]
      ]

  -- `/me/password`, for the row of the current user
  unfoldable pub change_own_password : String → String → User → World → Reply (Unit {0}) × World
  change_own_password current_password new_password user w =
      if not (leb 8 (len new_password) && leb (len new_password) 256)
      then (http 422, w)
      else if not (c.verify current_password user.password_hash)
      then (
        http 400,
        note
            (record (auth_entry "auth.password_change" "failure" (some user) null) {
              resource_type = none;
            })
            w,
      )
      else if str_eq new_password current_password
      then (http 400, w)
      else if contains (c.lower user.username) (c.lower new_password)
      then (http 400, w)
      else (
        ok tt,
        note
            (record (auth_entry "auth.password_change" "success" (some user) null) {
              resource_type = none;
            })
            (record w {
              users =
                  put_user
                    (record user {
                      password_hash = c.hash new_password;
                      must_change_password = false;
                      token_version = user.token_version + 1;
                    })
                    w.users;
            }),
      )

-- A sequence of logins, one after the other.
module _ (c : Crypto) where
  unfoldable pub run : List Attempt → State → State
  run [] s = s
  run (a ∷ as') s = run as' (login_for_access_token c a s).1
