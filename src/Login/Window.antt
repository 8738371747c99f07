-- ===== src/Login/Window.antt =====
-- No address has more than `ip_max` failed logins within the window, whatever it sends.
use dbmanager.Base.{
  ℕ, ◌+◌, ◌≤◌, String, ◌≡◌, refl, Bool, false, Bool-cases, Option-cases, inl, inr, none, List, [],
  ◌∷◌, ◌++◌, leb, ◌==◌, ◌<◌, ◌&&◌, str_eq, eq_iff, arith, length, length-append, count,
  count-append, if◌then◌else◌,
}
use text.Mathlib.TextPositions.{eq_refl}
use mathlib.Core.List.{append-nil, append_assoc}
use dbmanager.Base.Outcome.{Reply, ok, http}
use dbmanager.Login.Rate.{
  Limiter, init, window, ip_max, prune, push, rate_check, record_failure, record_success,
}
use dbmanager.Login.Branches.{login_refused, login_failed, login_succeeded}
use dbmanager.Login.{
  Crypto, Attempt, State, authenticate, refuse, fail, succeed, login_for_access_token, run,
}

-- A failure at time `t` lies in the window that ends at `now`.
abbrev pub is_recent : ℕ → ℕ → Bool
is_recent now t = leb now (t + window)

count-recent-prune :
    (q : List ℕ) (at now : ℕ)
    → at ≤ now
    → count (is_recent now) (prune q at) ≡ count (is_recent now) q
unfolding prune
count-recent-prune [] at now h = refl
count-recent-prune (t ∷ q) at now h = ground (arith, count-recent-prune q at now)

length-prune : (q : List ℕ) (at : ℕ) → length (prune q at) ≤ length q
unfolding prune
length-prune [] at = omega arith
length-prune (t ∷ q) at = ground (arith, length-prune q at)

push_short : (q : List ℕ) (t : ℕ) → length q < ip_max → push q t ≡ q ++ t ∷ []
unfolding push
push_short q t h = ground (arith, length-append {0} q (t ∷ []))

count-le-length : (p : ℕ → Bool) (q : List ℕ) → count p q ≤ length q
count-le-length p [] = omega arith
count-le-length p (t ∷ q) = ground (arith, count-le-length p q)

-- The failed logins of one address in a run, the latest last: those that the code answers with 401.
abbrev is_failure : String → Attempt → Reply String → Bool
is_failure ip a (http code) = code == 401 && str_eq a.ip ip
is_failure ip a (ok _) = false

module _ (c : Crypto) where
  unfoldable pub failures : String → List Attempt → State → List ℕ
  failures ip [] s = []
  failures ip (a ∷ as') s =
      let (r, s') = login_for_access_token c a s in
      let rest = failures ip as' s' in if is_failure ip a r then a.failed_at ∷ rest else rest

-- The clock does not run backwards.
abbrev pub Ordered : ℕ → List Attempt → ℕ → Type 0
Ordered from [] to = from ≤ to
Ordered from (a ∷ as') to = (from ≤ a.at) × (a.at ≤ a.failed_at) × Ordered a.failed_at as' to

-- The hits of an address stand for its history: from now on both have as many recent times.
pub record Tracks (ip : String) (from : ℕ) (history : List ℕ) (l : Limiter) : Type 0 where
  pub short : length (l.ip_hits ip) ≤ ip_max
  pub covers :
      (now : ℕ) → from ≤ now → count (is_recent now) history ≡ count (is_recent now) (l.ip_hits ip)

module _ (ip : String) where
  rate_check-Tracks :
      (i u : String) (from at : ℕ) (history : List ℕ) (l : Limiter)
      → from ≤ at
      → Tracks ip from history l
      → Tracks ip at history (rate_check i u at l).1
  unfolding rate_check
  rate_check-Tracks i u from at history l h k = record {
    short = ground (arith, k.short, eq_iff i ip, length-prune (l.ip_hits ip) at);
    covers = λ now p.
        ground (arith, k.covers now, eq_iff i ip, count-recent-prune (l.ip_hits ip) at now);
  }

  -- A login that passes the check leaves room for one hit.
  rate_check_room :
      (i u : String) (at : ℕ) (l : Limiter)
      → (rate_check i u at l).0 ≡ none
      → length ((rate_check i u at l).1.ip_hits i) < ip_max
  unfolding rate_check
  rate_check_room i u at l h = ground (arith, eq_iff i i)

  record_failure-Tracks :
      (i u : String) (from t : ℕ) (history : List ℕ) (l : Limiter)
      → from ≤ t
      → length (l.ip_hits i) < ip_max
      → Tracks ip from history l
      → Tracks ip t (history ++ (if str_eq i ip then t ∷ [] else [])) (record_failure i u t l)
  unfolding record_failure
  record_failure-Tracks i u from t history l h room k = elim (Bool-cases (str_eq i ip)) [
    | inl same ↦
        let e = (eq_iff i ip).0 same in
        record {
          short =
              rw (e, push_short (l.ip_hits ip) t (rw e at room))
                (ground
                  (arith, eq_refl ip, length-append {0} (l.ip_hits ip) (t ∷ []), rw e at room));
          covers = λ now p.
              rw (same, e, push_short (l.ip_hits ip) t (rw e at room))
                (omega (
                  arith,
                  k.covers now (omega arith),
                  count-append {0} (is_recent now) history (t ∷ []),
                  count-append {0} (is_recent now) (l.ip_hits ip) (t ∷ []),
                ));
        }
    | inr other ↦ record {
      short = ground (arith, k.short);
      covers = λ now p. ground (arith, k.covers now, append-nil history);
    }
  ]

  record_success-Tracks :
      (u : String) (from : ℕ) (history : List ℕ) (l : Limiter)
      → Tracks ip from history l
      → Tracks ip from history (record_success u l)
  unfolding record_success
  record_success-Tracks u from history l k = record { short = k.short; covers = k.covers }

  later-Tracks :
      (from to : ℕ) (history : List ℕ) (l : Limiter)
      → from ≤ to
      → Tracks ip from history l
      → Tracks ip to history l
  later-Tracks from to history l h k = record {
    short = k.short;
    covers = λ now p. k.covers now (omega arith);
  }

-- The times of failure that one login adds.
abbrev added : String → Attempt → Reply String → List ℕ
added ip a r = if is_failure ip a r then a.failed_at ∷ [] else []

module _ (c : Crypto) (ip : String) where
  login-Tracks :
      (a : Attempt) (from : ℕ) (history : List ℕ) (s : State)
      → from ≤ a.at
      → a.at ≤ a.failed_at
      → Tracks ip from history s.limiter
      → Tracks ip a.failed_at
          (history ++ added ip a (login_for_access_token c a s).0)
          (login_for_access_token c a s).1.limiter
  unfolding refuse fail succeed
  login-Tracks a from history s h k tr =
      let l : Limiter = (rate_check a.ip a.username a.at s.limiter).1 in
      let tr' : Tracks ip a.at history l =
        rate_check-Tracks ip a.ip a.username from a.at history s.limiter h tr in
      let room = rate_check_room ip a.ip a.username a.at s.limiter in
      let on = later-Tracks ip a.at a.failed_at in
      elim (Option-cases (rate_check a.ip a.username a.at s.limiter).0) [
        | inr (reason, e) ↦ rw (login_refused c a s reason e, append-nil) (on history l k tr')
        | inl e ↦ elim (Option-cases (authenticate c a s.world)) [
          | inl f ↦
              rw (login_failed c a s e f)
                (record_failure-Tracks ip a.ip a.username a.at a.failed_at history l k (room e) tr')
          | inr (u, f) ↦
              rw (login_succeeded c a s u e f, append-nil)
                (record_success-Tracks ip a.username a.failed_at history l (on history l k tr'))
        ]
      ]

  failures-added :
      (a : Attempt) (as' : List Attempt) (s : State)
      → failures c ip (a ∷ as') s
        ≡ added ip a (login_for_access_token c a s).0
          ++ failures c ip as' (login_for_access_token c a s).1
  unfolding failures
  failures-added a as' s = elim (Bool-cases (is_failure ip a (login_for_access_token c a s).0)) [
    | inl e ↦ rw e
    | inr e ↦ rw e
  ]

  run-Tracks :
      (as' : List Attempt) (from to : ℕ) (history : List ℕ) (s : State)
      → Ordered from as' to
      → Tracks ip from history s.limiter
      → Tracks ip to (history ++ failures c ip as' s) (run c as' s).limiter
  unfolding run failures
  run-Tracks [] from to history s o tr =
      rw append-nil (later-Tracks ip from to history s.limiter o tr)
  run-Tracks (a ∷ as') from to history s o tr =
      let (r, s') = login_for_access_token c a s in
      rw (failures-added a as' s, ← append_assoc)
        (run-Tracks as' a.failed_at to (history ++ added ip a r) s' o.2
          (login-Tracks a from history s o.0 o.1 tr))

-- However the logins of a run follow one another, at no time after them does a window of 60 seconds
-- hold more than five failed logins of one address. The limiter starts empty, the clock does not
-- run backwards, and each login is finished before the next one begins.
pub failures-le-ip_max :
    (c : Crypto) (ip : String) (as' : List Attempt) (s : State) (to now : ℕ)
    → s.limiter ≡ init
    → Ordered 0 as' to
    → to ≤ now
    → count (is_recent now) (failures c ip as' s) ≤ ip_max
failures-le-ip_max c ip as' s to now empty o h =
    let start : Tracks ip 0 [] s.limiter =
      rw empty (record { short = omega arith; covers = λ n p. refl }) in
    let end = run-Tracks c ip as' 0 to [] s o start in
    omega (
      arith,
      end.covers now h,
      end.short,
      count-le-length (is_recent now) ((run c as' s).limiter.ip_hits ip),
    )
