-- ===== src/Login/Lockout.antt =====
-- The tenth failure locks an account for fifteen minutes, whoever asks and with whatever password.
use text.Mathlib.TextPositions.{eq_refl}
use dbmanager.Base.{
  ℕ, ◌+◌, ◌≤◌, ◌<◌, String, ◌≡◌, refl, false, Bool-cases, Option-cases, inl, inr, none, some, List,
  [], ◌∷◌, str_eq, eq_iff, arith, All, length, length-append,
}
use dbmanager.Base.Outcome.{http}
use dbmanager.Login.Rate.{
  Limiter, account_locked, lockout, prune, push, rate_check, record_failure, record_success,
}
use dbmanager.Login.Branches.{checked, login_refused, login_failed, login_succeeded}
use dbmanager.Login.{
  Crypto, Attempt, State, authenticate, refuse, fail, succeed, login_for_access_token,
}

rate_check_locked :
    (ip u : String) (at until : ℕ) (l : Limiter)
    → l.user_lockout u ≡ some until
    → at < until
    → (rate_check ip u at l).0 ≡ some account_locked
unfolding rate_check
rate_check_locked ip u at until l e h = ground arith

user_lockout-rate_check :
    (ip u : String) (at : ℕ) (l : Limiter) → (rate_check ip u at l).1.user_lockout ≡ l.user_lockout
unfolding rate_check
user_lockout-rate_check ip u at l = ground arith

module _ (c : Crypto) (u : String) where
  -- Every login of this user in a run is answered with 429.
  abbrev pub AllDenied : List Attempt → State → Type 0
  AllDenied [] s = Unit
  AllDenied (a ∷ as') s =
      (a.username ≡ u → (login_for_access_token c a s).0 ≡ http 429)
      × AllDenied as' (login_for_access_token c a s).1

  login_own_locked :
      (a : Attempt) (s : State) (until : ℕ)
      → s.limiter.user_lockout u ≡ some until
      → a.at < until
      → a.username ≡ u
      → ((login_for_access_token c a s).0 ≡ http 429)
        × ((login_for_access_token c a s).1.limiter.user_lockout u ≡ some until)
  unfolding refuse
  login_own_locked a s until e h same =
      let denied = rate_check_locked a.ip a.username a.at until s.limiter (rw same e) h in
      rw (login_refused c a s account_locked denied)
        (refl, rw (user_lockout-rate_check a.ip a.username a.at s.limiter) e)

  login_other_locked :
      (a : Attempt) (s : State) (until : ℕ)
      → s.limiter.user_lockout u ≡ some until
      → str_eq a.username u ≡ false
      → (login_for_access_token c a s).1.limiter.user_lockout u ≡ some until
  unfolding refuse fail succeed record_failure record_success
  login_other_locked a s until e other =
      let kept = user_lockout-rate_check a.ip a.username a.at s.limiter in
      elim (Option-cases (rate_check a.ip a.username a.at s.limiter).0) [
        | inr (reason, f) ↦ rw (login_refused c a s reason f, kept) e
        | inl f ↦ elim (Option-cases (authenticate c a s.world)) [
          | inl g ↦ rw (login_failed c a s f g) (ground (arith, kept))
          | inr (v, g) ↦ rw (login_succeeded c a s v f g) (ground (arith, kept))
        ]
      ]

  locked-AllDenied :
      (as' : List Attempt) (s : State) (until : ℕ)
      → s.limiter.user_lockout u ≡ some until
      → All (λ a. a.at < until) as'
      → AllDenied as' s
  locked-AllDenied [] s until e h = tt
  locked-AllDenied (a ∷ as') s until e h = elim (Bool-cases (str_eq a.username u)) [
    | inl same ↦
        let own = login_own_locked a s until e h.0 ((eq_iff a.username u).0 same) in
        (λ _. own.0, locked-AllDenied as' (login_for_access_token c a s).1 until own.1 h.1)
    | inr other ↦ (
      λ p. absurd (ground (arith, eq_iff a.username u)),
      locked-AllDenied as' (login_for_access_token c a s).1 until
          (login_other_locked a s until e other) h.1,
    )
  ]

failure_locks :
    (ip u : String) (t : ℕ) (l : Limiter)
    → 9 ≤ length (l.user_hits u)
    → length (l.user_hits u) < 64
    → (record_failure ip u t l).user_lockout u ≡ some (t + lockout)
unfolding record_failure push
failure_locks ip u t l h k = ground (arith, eq_refl u, length-append {0} (l.user_hits u) (t ∷ []))

-- The hits that a login passes on to the count of failures.
user_hits-rate_check :
    (ip u : String) (at : ℕ) (l : Limiter)
    → (rate_check ip u at l).0 ≡ none
    → ((rate_check ip u at l).1.user_hits u ≡ prune (l.user_hits u) at)
      × (length (prune (l.user_hits u) at) < 10)
unfolding rate_check
user_hits-rate_check ip u at l h = ground (arith, eq_refl u)

-- A failed login of a user that nine failures within the window precede locks the account: until
-- fifteen minutes after it every login of that user is answered with 429, from any address and with
-- the right password too, whatever other logins come in between.
pub tenth_failure-locks :
    (c : Crypto) (a : Attempt) (s : State) (as' : List Attempt)
    → (rate_check a.ip a.username a.at s.limiter).0 ≡ none
    → authenticate c a s.world ≡ none
    → 9 ≤ length (prune (s.limiter.user_hits a.username) a.at)
    → All (λ b. b.at < a.failed_at + lockout) as'
    → AllDenied c a.username as' (login_for_access_token c a s).1
unfolding fail
tenth_failure-locks c a s as' e f nine later =
    let hits = user_hits-rate_check a.ip a.username a.at s.limiter e in
    locked-AllDenied c a.username as' (login_for_access_token c a s).1 (a.failed_at + lockout)
      (rw (login_failed c a s e f) (
        failure_locks a.ip a.username a.failed_at (checked a s).limiter (rw hits.0 nine)
          (rw hits.0 (omega (arith, hits.1)))))
      later
