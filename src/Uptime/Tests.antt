-- ===== src/Uptime/Tests.antt =====
-- Two databases over three rounds.
use dbmanager.Base.{ℕ, ◌≡◌, refl, Bool, true, false, arith, none, some, List, [], ◌∷◌, ◌++◌}
use dbmanager.Base.Outcome.{ok}
use dbmanager.Uptime.{
  up, down, Monitor, Ping, db_down, ping_all, ping_db, run, record_and_notify, append_uptime_event,
  last_status, get_database_uptime, window_days,
}
use dbmanager.Uptime.Transitions.{changes, pings, run-changes}

abbrev ping : ℕ → Bool → ℕ → Ping
ping db connected t = record { db = db; answer = some connected; ts = t; now = t }

abbrev rounds : List (Bool × List Ping)
rounds =
    (true, ping 1 true 10 ∷ ping 2 true 11 ∷ [])
    ∷ (false, ping 1 false 20 ∷ [])
    ∷ (true, ping 1 false 30 ∷ ping 2 true 31 ∷ [])
    ∷ []

abbrev quiet : Monitor
quiet = record { history = λ i. []; sent = [] }

quiet_last : (i : ℕ) → none ≡ last_status (quiet.history i)
unfolding last_status
quiet_last i = refl

run-changes_example : (run rounds quiet).sent ≡ [] ++ changes (pings rounds) (λ i. none)
run-changes_example =
    run-changes rounds (λ i. none) quiet
      (
        (omega arith, (omega arith, tt)),
        ((omega arith, tt), ((omega arith, (omega arith, tt)), tt)),
      )
      quiet_last

one_notice : (run rounds quiet).sent ≡ db_down 1 ∷ []
unfolding run ping_all ping_db record_and_notify append_uptime_event last_status
one_notice = refl

two_of_three :
    get_database_uptime true "day" 100 (
      record { ts = 1; status = up }
      ∷ record { ts = 2; status = down }
      ∷ record { ts = 3; status = up }
      ∷ [])
    ≡ ok (2, 3)
unfolding get_database_uptime window_days
two_of_three = refl
