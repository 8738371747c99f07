-- ===== src/Login/Tests.antt =====
-- A run of logins against one account.
use dbmanager.Base.{ℕ, ◌≤◌, ◌≡◌, refl, arith, none, [], ◌∷◌, str_eq, count, length, if◌then◌else◌}
use dbmanager.Users.{get_user_by_username}
use dbmanager.Users.Tests.{two_users}
use dbmanager.Login.Rate.{init, ip_max, prune, rate_check}
use dbmanager.Login.Window.{is_recent, failures, failures-le-ip_max}
use dbmanager.Login.Lockout.{AllDenied, tenth_failure-locks}
use dbmanager.Login.{Crypto, Attempt, State, authenticate, login_for_access_token}

abbrev crypto : Crypto
crypto = record { lower = λ s. s; verify = λ p h. str_eq p h; hash = λ p. p; encode = λ s v. s }

abbrev guess : ℕ → Attempt
guess t = record {
  ip = "10.0.0.1";
  username = "bob";
  password = "guess";
  at = t;
  failed_at = t;
  date = t;
}

abbrev start : State
start = record { limiter = init; world = two_users }

failures-le-ip_max_example :
    count (is_recent 3) (failures crypto "10.0.0.1" (guess 1 ∷ guess 2 ∷ []) start) ≤ ip_max
failures-le-ip_max_example =
    failures-le-ip_max crypto "10.0.0.1" (guess 1 ∷ guess 2 ∷ []) start 2 3 refl
      (omega arith, omega arith, (omega arith, omega arith, omega arith)) (omega arith)

-- Nine failures from other addresses.
abbrev nine_failures : State
nine_failures = record {
  limiter = record {
    ip_hits = λ _. [];
    user_hits = λ u. if str_eq u "bob" then 1 ∷ 2 ∷ 3 ∷ 4 ∷ 5 ∷ 6 ∷ 7 ∷ 8 ∷ 9 ∷ [] else [];
    user_lockout = λ _. none;
  };
  world = two_users;
}

nine_pass : (rate_check "10.0.0.1" "bob" 10 nine_failures.limiter).0 ≡ none
unfolding rate_check prune
nine_pass = refl

guess_fails : authenticate crypto (guess 10) two_users ≡ none
unfolding authenticate get_user_by_username
guess_fails = refl

nine_recent : 9 ≤ length (prune (nine_failures.limiter.user_hits "bob") 10)
unfolding prune
nine_recent = omega arith

tenth_failure-locks_example :
    AllDenied crypto "bob"
      (guess 20 ∷ guess 30 ∷ [])
      (login_for_access_token crypto (guess 10) nine_failures).1
tenth_failure-locks_example =
    tenth_failure-locks crypto (guess 10) nine_failures (guess 20 ∷ guess 30 ∷ []) nine_pass
      guess_fails nine_recent (omega arith, (omega arith, tt))
