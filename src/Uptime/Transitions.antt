-- ===== src/Uptime/Transitions.antt =====
-- The notices of the monitor are the changes of the status, database by database.
use dbmanager.Base.{
  ℕ, ◌+◌, ◌≤◌, ◌≡◌, refl, sym, Bool, true, false, Option, none, some, List, [], ◌∷◌, ◌++◌, arith,
  keep, ◌==◌, if◌then◌else◌,
}
use mathlib.Core.List.{append_assoc, append-nil}
use dbmanager.Uptime.{
  Status, same_status, Event, History, is_recent_event, append_uptime_event, last_status, Notice,
  notice, Monitor, ping_db, record_and_notify, Ping, ping_all, year, run,
}

-- The specification: it remembers the last status of each database and nothing else.
abbrev pub Seen : Type 0
Seen = ℕ → Option Status

abbrev pub see : ℕ → Status → Seen → Seen
see db s seen i = if db == i then some s else seen i

abbrev pub change : ℕ → Option Status → Status → List Notice
change db none s = []
change db (some prev) s = if same_status prev s then [] else notice db s ∷ []

unfoldable pub changes : List Ping → Seen → List Notice
changes [] seen = []
changes (p ∷ ps) seen =
    change p.db (seen p.db) (ping_db p.answer) ++ changes ps (see p.db (ping_db p.answer) seen)

-- The event that was just recorded is not pruned.
last_status-keep :
    (p : Event → Bool) (e : Event) (es : List Event)
    → p e ≡ true
    → last_status (keep p (es ++ e ∷ [])) ≡ some e.status
unfolding last_status
last_status-keep p e [] h = ground arith
last_status-keep p e (x ∷ es) h = ground (arith, last_status-keep p e es h)

last_status-append_uptime_event :
    (db i : ℕ) (s : Status) (ts now : ℕ) (h : History)
    → now ≤ ts + year
    → last_status (append_uptime_event db s ts now h i)
      ≡ (if db == i then some s else last_status (h i))
unfolding append_uptime_event
last_status-append_uptime_event db i s ts now h k =
    ground (arith, last_status-keep (is_recent_event now) (record { ts = ts; status = s }) (h i))

-- The pings of the rounds that are carried out.
abbrev pub pings : List (Bool × List Ping) → List Ping
pings [] = []
pings ((enabled, ps) ∷ rounds) = if enabled then ps ++ pings rounds else pings rounds

-- The history is pruned less than a year after the time of its event.
abbrev pub Timely : List Ping → Type 0
Timely [] = Unit
Timely (p ∷ ps) = (p.now ≤ p.ts + year) × Timely ps

abbrev pub AllTimely : List (Bool × List Ping) → Type 0
AllTimely [] = Unit
AllTimely ((enabled, ps) ∷ rounds) = Timely ps × AllTimely rounds

-- The history shows what the specification has seen.
abbrev pub Shows : Seen → Monitor → Type 0
Shows seen m = (i : ℕ) → seen i ≡ last_status (m.history i)

record_and_notify-Shows :
    (p : Ping) (seen : Seen) (m : Monitor)
    → p.now ≤ p.ts + year
    → Shows seen m
    → Shows
        (see p.db (ping_db p.answer) seen)
        (record_and_notify p.db (ping_db p.answer) p.ts p.now m)
unfolding record_and_notify
record_and_notify-Shows p seen m k h i =
    ground
      (arith, h i, last_status-append_uptime_event p.db i (ping_db p.answer) p.ts p.now m.history)

record_and_notify-sent :
    (p : Ping) (seen : Seen) (m : Monitor)
    → Shows seen m
    → (record_and_notify p.db (ping_db p.answer) p.ts p.now m).sent
      ≡ m.sent ++ change p.db (seen p.db) (ping_db p.answer)
unfolding record_and_notify
record_and_notify-sent p seen m h = ground (arith, h p.db, append-nil m.sent)

-- What the specification has seen after some pings.
abbrev pub seen_after : List Ping → Seen → Seen
seen_after [] seen = seen
seen_after (p ∷ ps) seen = seen_after ps (see p.db (ping_db p.answer) seen)

changes-append :
    (ps qs : List Ping) (seen : Seen)
    → changes (ps ++ qs) seen ≡ changes ps seen ++ changes qs (seen_after ps seen)
unfolding changes
changes-append [] qs seen = refl
changes-append (p ∷ ps) qs seen =
    rw (changes-append ps qs (see p.db (ping_db p.answer) seen), append_assoc) refl

ping_all-changes :
    (ps : List Ping) (seen : Seen) (m : Monitor)
    → Timely ps
    → Shows seen m
    → ((ping_all true ps m).sent ≡ m.sent ++ changes ps seen)
      × Shows (seen_after ps seen) (ping_all true ps m)
unfolding ping_all changes
ping_all-changes [] seen m k h = (sym (append-nil m.sent), h)
ping_all-changes (p ∷ ps) seen m k h =
    let m' = record_and_notify p.db (ping_db p.answer) p.ts p.now m in
    let (e, h') =
      ping_all-changes ps (see p.db (ping_db p.answer) seen) m' k.1
        (record_and_notify-Shows p seen m k.0 h) in
    (rw (e, record_and_notify-sent p seen m h, append_assoc) refl, h')

-- The notices that the monitor sends over any rounds are those of the specification, which remembers
-- the last status of each database and nothing else: one for each change of it, none for the first
-- status, and none in a round that is switched off. The pruning of a history follows within a year of
-- the time of its event.
pub run-changes :
    (rounds : List (Bool × List Ping)) (seen : Seen) (m : Monitor)
    → AllTimely rounds
    → Shows seen m
    → (run rounds m).sent ≡ m.sent ++ changes (pings rounds) seen
unfolding run changes ping_all
run-changes [] seen m k h = sym (append-nil m.sent)
run-changes ((true, ps) ∷ rounds) seen m k h =
    let (e, h') = ping_all-changes ps seen m k.0 h in
    rw
      (
        run-changes rounds (seen_after ps seen) (ping_all true ps m) k.1 h',
        e,
        changes-append ps (pings rounds) seen,
        append_assoc,
      )
      refl
run-changes ((false, ps) ∷ rounds) seen m k h = run-changes rounds seen m k.1 h
