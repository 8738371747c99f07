-- ===== src/Schedules/Sound.antt =====
-- Schedules whose cron expression has five words, or is null, and whose database is there.
use dbmanager.Base.{
  ℕ, ◌≡◌, refl, Bool, true, false, none, some, List, [], ◌∷◌, ◌++◌, not, ◌==◌, find, keep, arith,
  All, Bool-cases, inl, inr, is_some,
}
use dbmanager.Config.{DbConfig, Schedule, Manager}
use dbmanager.Schedules.{valid_cron, has_schedule_id, put_schedule}

-- The cron expression has five fields, if it is not null, and the database is there.
abbrev pub IsSound : List DbConfig → Schedule → Type 0
IsSound ds s =
    (elim s.cron_expression [ none ↦ true | some e ↦ valid_cron e ] ≡ true)
    × (is_some (find (λ (d : DbConfig). d.id == s.database_id) ds) ≡ true)

abbrev pub IsConsistent : Manager → Type 0
IsConsistent m = All (IsSound m.config.databases) m.config.schedules

pub found-IsSound :
    (ds : List DbConfig) (i : ℕ) (ss : List Schedule) (s : Schedule)
    → All (IsSound ds) ss
    → find (has_schedule_id i) ss ≡ some s
    → IsSound ds s
found-IsSound ds i [] s h e = cc
found-IsSound ds i (t ∷ ss) s h e = ground (arith, found-IsSound ds i ss s h.1)

pub put-IsSound :
    (ds : List DbConfig) (i : ℕ) (new : Schedule) (ss : List Schedule)
    → IsSound ds new
    → All (IsSound ds) ss
    → All (IsSound ds) (put_schedule i new ss)
unfolding put_schedule
put-IsSound ds i new [] n h = tt
put-IsSound ds i new (s ∷ ss) n h = ground (arith, put-IsSound ds i new ss n h.1)

pub keep-All :
    (P : Schedule → Type 0) (p : Schedule → Bool) (ss : List Schedule)
    → All P ss
    → All P (keep p ss)
keep-All P p [] h = tt
keep-All P p (s ∷ ss) h = elim (Bool-cases (p s)) [
  | inl e ↦ rw e (h.0, keep-All P p ss h.1)
  | inr e ↦ rw e (keep-All P p ss h.1)
]

-- An entry more does no harm.
pub find_db-append :
    (i : ℕ) (d : DbConfig) (ds : List DbConfig)
    → is_some (find (λ (x : DbConfig). x.id == i) ds) ≡ true
    → is_some (find (λ (x : DbConfig). x.id == i) (ds ++ d ∷ [])) ≡ true
find_db-append i d [] h = cc
find_db-append i d (x ∷ ds) h = ground (arith, find_db-append i d ds)

pub append-IsSound :
    (ds : List DbConfig) (d : DbConfig) (ss : List Schedule)
    → All (IsSound ds) ss
    → All (IsSound (ds ++ d ∷ [])) ss
append-IsSound ds d [] h = tt
append-IsSound ds d (s ∷ ss) h =
    ((h.0.0, find_db-append s.database_id d ds h.0.1), append-IsSound ds d ss h.1)

pub find_db-keep :
    (i j : ℕ) (ds : List DbConfig)
    → (j == i) ≡ false
    → find (λ (x : DbConfig). x.id == j) (keep (λ d. not (d.id == i)) ds)
      ≡ find (λ (x : DbConfig). x.id == j) ds
find_db-keep i j [] h = refl
find_db-keep i j (d ∷ ds) h = ground (arith, find_db-keep i j ds)

pub removed-IsSound :
    (i : ℕ) (ds : List DbConfig) (ss : List Schedule)
    → All (IsSound ds) ss
    → All
        (IsSound (keep (λ d. not (d.id == i)) ds))
        (keep (λ (s : Schedule). not (s.database_id == i)) ss)
removed-IsSound i ds [] h = tt
removed-IsSound i ds (s ∷ ss) h = elim (Bool-cases (s.database_id == i)) [
  | inl e ↦ rw e (removed-IsSound i ds ss h.1)
  | inr e ↦
      rw e ((h.0.0, rw (find_db-keep i s.database_id ds e) h.0.1), removed-IsSound i ds ss h.1)
]
