-- ===== src/Session/Tests.antt =====
-- Requests of a signed-in user.
use dbmanager.Base.{◌≡◌, refl, false, none, some, ◌↔◌, str_eq, if◌then◌else◌}
use dbmanager.Base.Outcome.{ok, http}
use dbmanager.Base.Text.{contains}
use dbmanager.Users.{get_user_by_id, get_user_by_username, count_active_admins}
use dbmanager.Users.Admin.{
  reset_user_password, update_user, delete_user, too_weak, drops_admin, locks_self_out, set_active,
  new_role,
}
use dbmanager.Users.Tests.{alice, bob, two_users, services, two_users-IsValid}
use dbmanager.Session.{
  Request, Tokens, truthy, first_truthy, right_version, csrf_refused, check_user, check_payload,
  get_current_user,
}
use dbmanager.Session.Access.{IsAuthentic, get_current_user-IsAuthentic}
use dbmanager.Session.Revocation.{reset-revokes}

abbrev tokens : Tokens
tokens = record {
  lower = λ s. s;
  decode_token =
      λ t. if str_eq t "tok" then some (record { sub = some "bob"; tv = some 3 }) else none;
}

abbrev get_request : Request
get_request = record {
  method = "GET";
  path = "/api/v1/databases";
  bearer = some "tok";
  cookie = none;
  x_requested_with = none;
}

bob_signed_in : get_current_user tokens get_request two_users ≡ ok bob
unfolding get_current_user csrf_refused first_truthy truthy check_payload check_user right_version
    get_user_by_username
bob_signed_in = refl

get_current_user-IsAuthentic_example :
    (get_current_user tokens get_request two_users ≡ ok bob)
    ↔ IsAuthentic tokens get_request two_users bob
get_current_user-IsAuthentic_example = get_current_user-IsAuthentic tokens get_request two_users bob

reset_answers :
    (reset_user_password services 2 (record { new_password = "12345678" }) alice two_users).0
    ≡ ok tt
unfolding reset_user_password get_user_by_id too_weak contains
reset_answers = refl

reset-revokes_example :
    get_current_user tokens get_request
      (reset_user_password services 2 (record { new_password = "12345678" }) alice two_users).1
    ≡ http 401
reset-revokes_example =
    reset-revokes tokens get_request services (record { new_password = "12345678" }) alice bob
      two_users two_users-IsValid bob_signed_in reset_answers

deactivation_answers :
    (update_user services 2 (record { role = none; is_active = some false }) alice two_users).0
    ≡ ok (record bob { is_active = false; token_version = 4 })
unfolding update_user get_user_by_id count_active_admins drops_admin locks_self_out set_active
    new_role
deactivation_answers = refl

deletion_answers : (delete_user services 2 alice two_users).0 ≡ ok tt
unfolding delete_user get_user_by_id count_active_admins
deletion_answers = refl
