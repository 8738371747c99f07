-- ===== src/Users/Tests.antt =====
-- The administration handlers on a table of two users.
use dbmanager.Base.{
  ℕ, suc, ◌≡◌, refl, true, false, arith, none, some, List, [], ◌∷◌, ◌<◌, max, find,
}
use dbmanager.Base.Outcome.{http}
use dbmanager.Users.{admin, viewer, count_active_admins, get_user_by_id, User, World, has_id}
use dbmanager.Users.Admin.{Services, update_user, drops_admin, locks_self_out}
use dbmanager.Users.Sequence.{
  Request, creating, updating, resetting, deleting, handle_all, requests-IsValid,
}
use dbmanager.Users.Invariant.{IsValid, Assigns}

abbrev pub alice : User
alice = record {
  id = 1;
  username = "alice";
  password_hash = "a-secret-1";
  role = admin;
  is_active = true;
  token_version = 0;
  must_change_password = false;
  last_login_at = none;
}

abbrev pub bob : User
bob = record {
  id = 2;
  username = "bob";
  password_hash = "b-secret-1";
  role = viewer;
  is_active = true;
  token_version = 3;
  must_change_password = false;
  last_login_at = none;
}

abbrev pub two_users : World
two_users = record { users = alice ∷ bob ∷ []; audit = record { is_up = true; entries = [] } }

abbrev pub max_user : List User → ℕ
max_user [] = 0
max_user (u ∷ us) = max u.id (max_user us)

abbrev pub services : Services
services = record { lower = λ s. s; hash = λ s. s; next_id = λ us. suc (max_user us) }

above_max_user : (i : ℕ) (us : List User) → max_user us < i → find (has_id i) us ≡ none
above_max_user i [] h = refl
above_max_user i (u ∷ us) h = ground (arith, above_max_user i us)

services-Assigns : Assigns services
services-Assigns = record { is_new = λ us. above_max_user (suc (max_user us)) us (omega arith) }

pub two_users-IsValid : IsValid two_users.users
unfolding count_active_admins
two_users-IsValid = record {
  ids = (refl, (refl, tt));
  names = (refl, (refl, tt));
  an_admin = omega arith;
}

-- The last admin is not demoted.
last_admin :
    (update_user services 1 (record { role = some "viewer"; is_active = none }) bob two_users).0
    ≡ http 400
unfolding update_user get_user_by_id count_active_admins drops_admin locks_self_out
last_admin = refl

abbrev requests : List Request
requests =
    creating (record { username = "carl"; password = "12345678"; role = "admin" }) alice
    ∷ updating 1 (record { role = some "viewer"; is_active = none }) bob
    ∷ resetting 2 (record { new_password = "12345678" }) alice
    ∷ deleting 2 alice
    ∷ []

requests-IsValid_example : IsValid (handle_all services requests two_users).users
requests-IsValid_example =
    requests-IsValid services services-Assigns requests two_users two_users-IsValid
