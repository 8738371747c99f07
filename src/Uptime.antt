-- ===== src/Uptime.antt =====
-- The uptime monitor of backend/core/uptime_monitor.py, with the history that
-- `append_uptime_event` and `get_uptime_history` of backend/config.py keep and the share that
-- `get_database_uptime` of backend/api/routers/databases.py answers. Times are seconds; the text of a
-- time orders as the time does.
pub mod Transitions
mod Tests
use dbmanager.Base.{
  ℕ, ◌+◌, ◌-◌, ◌*◌, ◌/◌, String, Bool, true, false, Option, none, some, List, [], ◌∷◌, ◌++◌, ◌&&◌,
  not, ◌==◌, leb, ltb, str_eq, keep, count, length, if◌then◌else◌,
}
use dbmanager.Base.Outcome.{Reply, ok, http}

pub data Status : Type 0 where
  up down : Status

abbrev pub same_status : Status → Status → Bool
same_status up up = true
same_status down down = true
same_status _ _ = false

pub record Event : Type 0 where
  pub ts : ℕ
  pub status : Status

-- `uptime_history`, by database; a missing key is the empty history.
abbrev pub History : Type 0
History = ℕ → List Event

abbrev pub year : ℕ
year = 365 * 86400

abbrev pub is_recent_event : ℕ → Event → Bool
is_recent_event now e = leb (now - year) e.ts

-- The pruning reads the clock again, at `now`.
unfoldable pub append_uptime_event : ℕ → Status → ℕ → ℕ → History → History
append_uptime_event db status ts now h i =
    if db == i
    then keep (is_recent_event now) (h i ++ record { ts = ts; status = status } ∷ [])
    else h i

-- `history[-1]["status"] if history else None`
unfoldable pub last_status : List Event → Option Status
last_status [] = none
last_status (e ∷ es) = elim (last_status es) [ none ↦ some e.status | some s ↦ some s ]

pub data Notice : Type 0 where
  db_down db_up : ℕ → Notice

abbrev pub notice : ℕ → Status → Notice
notice db up = db_up db
notice db down = db_down db

pub record Monitor : Type 0 where
  pub history : History
  pub sent : List Notice

-- The outcome of `check_connection`; `none` is an exception.
unfoldable pub ping_db : Option Bool → Status
ping_db none = down
ping_db (some connected) = if connected then up else down

-- `ts` is the time of the event, `now` that of the pruning.
unfoldable pub record_and_notify : ℕ → Status → ℕ → ℕ → Monitor → Monitor
unfolding append_uptime_event last_status
record_and_notify db new_status ts now m =
    let prev_status = last_status (m.history db) in
    record {
      history = append_uptime_event db new_status ts now m.history;
      sent = elim prev_status [
        | none ↦ m.sent
        | some prev ↦
            if same_status prev new_status then m.sent else m.sent ++ notice db new_status ∷ []
      ];
    }

-- One round: what each database answers, and the two times of its record.
pub record Ping : Type 0 where
  pub db : ℕ
  pub answer : Option Bool
  pub ts : ℕ
  pub now : ℕ

unfoldable pub ping_all : Bool → List Ping → Monitor → Monitor
unfolding ping_db
ping_all false ps m = m
ping_all true [] m = m
ping_all true (p ∷ ps) m = ping_all true ps (record_and_notify p.db (ping_db p.answer) p.ts p.now m)

-- The rounds of `_run`, each with the setting `enabled` at its time.
unfoldable pub run : List (Bool × List Ping) → Monitor → Monitor
run [] m = m
run ((enabled, ps) ∷ rounds) m = run rounds (ping_all enabled ps m)

-- `windows`
unfoldable pub window_days : String → Option ℕ
window_days period =
    if str_eq period "day"
    then some 1
    else if str_eq period "week"
    then some 7
    else if str_eq period "month"
    then some 30
    else if str_eq period "year"
    then some 365
    else none

abbrev pub is_up_event : Event → Bool
is_up_event e = same_status e.status up

-- The number of `up` events and of all events within the period; the percentage is their quotient.
unfoldable pub get_database_uptime : Bool → String → ℕ → List Event → Reply (ℕ × ℕ)
unfolding window_days
get_database_uptime exists period now history =
    if not exists then http 404 else elim (window_days period) [
      | none ↦ http 400
      | some days ↦
          let filtered = keep (λ (e : Event). leb (now - days * 86400) e.ts) history in
          ok (count is_up_event filtered, length filtered)
    ]
