-- ===== src/Login/Rate.antt =====
-- The limiter of backend/api/routers/auth.py: hits by address and by user, and locked accounts.
use dbmanager.Base.{
  ℕ, ◌+◌, ◌-◌, ◌*◌, String, Bool, Option, none, some, List, [], ◌∷◌, ◌++◌, ltb, leb, str_eq, length,
  drop, if◌then◌else◌,
}

abbrev pub second : ℕ
second = 1000000000

abbrev pub window : ℕ
window = 60 * second

abbrev pub ip_max : ℕ
ip_max = 5

abbrev pub user_max : ℕ
user_max = 10

abbrev pub lockout_threshold : ℕ
lockout_threshold = 10

abbrev pub lockout : ℕ
lockout = 15 * 60 * second

pub data Reason : Type 0 where
  account_locked ip_rate user_rate : Reason

-- The three module-level dicts; a `defaultdict` gives `[]` at a missing key.
pub record Limiter : Type 0 where
  pub ip_hits : String → List ℕ
  pub user_hits : String → List ℕ
  pub user_lockout : String → Option ℕ

abbrev pub init : Limiter
init = record { ip_hits = λ _. []; user_hits = λ _. []; user_lockout = λ _. none }

abbrev pub update {ℓ} : {A : Type ℓ} → (String → A) → String → A → String → A
update f k v j = if str_eq k j then v else f j

-- `_prune`; a cutoff below zero drops nothing
unfoldable pub prune : List ℕ → ℕ → List ℕ
prune [] now = []
prune (t ∷ q) now = let rest = prune q now in if ltb t (now - window) then rest else t ∷ q

-- `append` on `deque(maxlen=64)`
unfoldable pub push : List ℕ → ℕ → List ℕ
push q t = let q' = q ++ t ∷ [] in if ltb 64 (length q') then drop 1 q' else q'

abbrev pub is_locked : Option ℕ → ℕ → Bool
is_locked o now = elim o [ none ↦ Bool.false | some until ↦ ltb now until ]

-- `_rate_check`: `none` is `(True, "")`
unfoldable pub rate_check : String → String → ℕ → Limiter → Option Reason × Limiter
rate_check ip username now l =
    if is_locked (l.user_lockout username) now
    then (some account_locked, l)
    else let ips = prune (l.ip_hits ip) now in
      let users = prune (l.user_hits username) now in
      let l' : Limiter = record l {
        ip_hits = update l.ip_hits ip ips;
        user_hits = update l.user_hits username users;
      } in
      if leb ip_max (length ips)
      then (some ip_rate, l')
      else if leb user_max (length users)
      then (some user_rate, l')
      else (none, l')

-- `_record_failure`
unfoldable pub record_failure : String → String → ℕ → Limiter → Limiter
record_failure ip username now l =
    let users = push (l.user_hits username) now in
    record {
      ip_hits = update l.ip_hits ip (push (l.ip_hits ip) now);
      user_hits = update l.user_hits username users;
      user_lockout =
          if leb lockout_threshold (length users)
          then update l.user_lockout username (some (now + lockout))
          else l.user_lockout;
    }

-- `_record_success`
unfoldable pub record_success : String → Limiter → Limiter
record_success username l = record l {
  user_hits = update l.user_hits username [];
  user_lockout = update l.user_lockout username none;
}
