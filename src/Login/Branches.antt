-- ===== src/Login/Branches.antt =====
-- The three ways a login ends, by what the rate check and the authentication say.
use dbmanager.Base.{◌≡◌, none, some, arith}
use dbmanager.Users.{User}
use dbmanager.Login.Rate.{Reason, rate_check}
use dbmanager.Login.{
  Crypto, Attempt, State, authenticate, refuse, fail, succeed, login_for_access_token,
}

-- The state after the rate check.
abbrev pub checked : Attempt → State → State
checked a s = record s { limiter = (rate_check a.ip a.username a.at s.limiter).1 }

module _ (c : Crypto) (a : Attempt) (s : State) where
  pub login_refused :
      (reason : Reason)
      → (rate_check a.ip a.username a.at s.limiter).0 ≡ some reason
      → login_for_access_token c a s ≡ refuse c a reason (checked a s)
  unfolding login_for_access_token
  login_refused reason e = ground arith

  pub login_failed :
      (rate_check a.ip a.username a.at s.limiter).0 ≡ none
      → authenticate c a s.world ≡ none
      → login_for_access_token c a s ≡ fail c a (checked a s)
  unfolding login_for_access_token
  login_failed e f = ground arith

  pub login_succeeded :
      (u : User)
      → (rate_check a.ip a.username a.at s.limiter).0 ≡ none
      → authenticate c a s.world ≡ some u
      → login_for_access_token c a s ≡ succeed c a u (checked a s)
  unfolding login_for_access_token
  login_succeeded u e f = ground arith
