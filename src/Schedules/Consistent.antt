-- ===== src/Schedules/Consistent.antt =====
-- Every schedule belongs to a database of the configuration, whatever handlers are called.
use dbmanager.Base.{
  ℕ, ◌≡◌, true, false, some, List, [], ◌∷◌, not, ◌==◌, find, arith, All-append, Option-cases,
  Bool-cases, ◌⊎◌, inl, inr, is_some, or_else,
}
use dbmanager.Config.{DbConfig, Manager, get_database, add_database, remove_database}
use dbmanager.Schedules.Cron.{Crontab, CronState}
use dbmanager.Schedules.Sound.{
  IsSound, IsConsistent, found-IsSound, put-IsSound, keep-All, append-IsSound, removed-IsSound,
}
use dbmanager.Schedules.{
  valid_cron, ScheduleCreate, ScheduleUpdate, has_schedule_id, create_schedule, merge_schedule,
  update_schedule, delete_schedule, toggle_schedule, DatabaseCreate, new_database, create_database,
  delete_database,
}

-- The handlers that change schedules or databases.
pub data Request : Type 0 where
  creating : ScheduleCreate → Request
  updating : ℕ → ScheduleUpdate → Request
  deleting : ℕ → Request
  toggling : ℕ → Request
  creating_database : DatabaseCreate → Request
  deleting_database : ℕ → Request

module _ (c : Crontab) where
  unfoldable pub handle : Request → CronState c × Manager → CronState c × Manager
  handle (creating body) (cron, m) = (cron, (create_schedule body m).1)
  handle (updating i body) (cron, m) = (cron, (update_schedule i body m).1)
  handle (deleting i) (cron, m) = (cron, (delete_schedule i m).1)
  handle (toggling i) (cron, m) = (cron, (toggle_schedule i m).1)
  handle (creating_database body) (cron, m) = (cron, (create_database body m).1)
  handle (deleting_database i) (cron, m) = (delete_database c i (cron, m)).1

  unfoldable pub handle_all : List Request → CronState c × Manager → CronState c × Manager
  handle_all [] s = s
  handle_all (r ∷ rs) s = handle_all rs (handle r s)

create_schedule-IsConsistent :
    (body : ScheduleCreate) (m : Manager) → IsConsistent m → IsConsistent (create_schedule body m).1
unfolding create_schedule get_database
create_schedule-IsConsistent body m h =
    elim (Bool-cases
      (is_some (find (λ (d : DbConfig). d.id == body.database_id) m.config.databases))) [
        | inr e ↦ rw e h
        | inl e ↦ elim (Bool-cases (valid_cron body.cron_expression)) [
          | inr f ↦ rw (e, f) h
          | inl f ↦
              rw (e, f)
                (All-append (IsSound m.config.databases) m.config.schedules (_ ∷ []) h ((f, e), tt))
        ]
      ]

update_schedule-IsConsistent :
    (i : ℕ) (body : ScheduleUpdate) (m : Manager)
    → IsConsistent m
    → IsConsistent (update_schedule i body m).1
unfolding update_schedule
update_schedule-IsConsistent i body m h =
    elim (Option-cases (find (has_schedule_id i) m.config.schedules)) [
      | inl e ↦ rw (e, update_schedule) h
      | inr (s, e) ↦
          elim (Bool-cases
            (elim body.cron_expression [ some (some x) ↦ valid_cron x | _ ↦ true ])) [
              | inr f ↦ ground (arith, h)
              | inl f ↦
                  let sound = found-IsSound m.config.databases i m.config.schedules s h e in
                  let kept =
                    put-IsSound m.config.databases i (merge_schedule body s) m.config.schedules
                      (ground (arith, sound)) h in
                  ground (arith, kept)
            ]
    ]

toggle_schedule-IsConsistent :
    (i : ℕ) (m : Manager) → IsConsistent m → IsConsistent (toggle_schedule i m).1
unfolding toggle_schedule
toggle_schedule-IsConsistent i m h =
    elim (Option-cases (find (has_schedule_id i) m.config.schedules)) [
      | inl e ↦ rw (e, toggle_schedule) h
      | inr (s, e) ↦
          rw (e, toggle_schedule)
            (put-IsSound m.config.databases i
              (record s { enabled = some (not (or_else s.enabled false)) }) m.config.schedules
              (found-IsSound m.config.databases i m.config.schedules s h e) h)
    ]

delete_schedule-IsConsistent :
    (i : ℕ) (m : Manager) → IsConsistent m → IsConsistent (delete_schedule i m).1
unfolding delete_schedule
delete_schedule-IsConsistent i m h =
    elim (Bool-cases (is_some (find (has_schedule_id i) m.config.schedules))) [
      | inl e ↦ rw e (
          keep-All (IsSound m.config.databases) (λ s. not (has_schedule_id i s)) m.config.schedules
            h)
      | inr e ↦ rw e h
    ]

create_database-cases :
    (body : DatabaseCreate) (m : Manager)
    → ((create_database body m).1 ≡ m)
      ⊎ ((create_database body m).1 ≡ (add_database false (new_database body) m).1)
unfolding create_database
create_database-cases body m = ground arith

create_database-IsConsistent :
    (body : DatabaseCreate) (m : Manager) → IsConsistent m → IsConsistent (create_database body m).1
unfolding add_database
create_database-IsConsistent body m h = elim (create_database-cases body m) [
  | inl e ↦ rw e h
  | inr e ↦
      let (i, m') = add_database false (new_database body) m in
      rw e (
        append-IsSound m.config.databases (record (new_database body) { id = i }) m.config.schedules
          h)
]

delete_database-IsConsistent :
    (c : Crontab) (i : ℕ) (cron : CronState c) (m : Manager)
    → IsConsistent m
    → IsConsistent (delete_database c i (cron, m)).1.1
unfolding delete_database remove_database
delete_database-IsConsistent c i cron m h = elim (Bool-cases (is_some (get_database i m))) [
  | inr e ↦ rw e h
  | inl e ↦ rw e (removed-IsSound i m.config.databases m.config.schedules h)
]

module _ (c : Crontab) where
  handle-IsConsistent :
      (r : Request) (s : CronState c × Manager) → IsConsistent s.1 → IsConsistent (handle c r s).1
  unfolding handle
  handle-IsConsistent (creating body) (cron, m) h = create_schedule-IsConsistent body m h
  handle-IsConsistent (updating i body) (cron, m) h = update_schedule-IsConsistent i body m h
  handle-IsConsistent (deleting i) (cron, m) h = delete_schedule-IsConsistent i m h
  handle-IsConsistent (toggling i) (cron, m) h = toggle_schedule-IsConsistent i m h
  handle-IsConsistent (creating_database body) (cron, m) h = create_database-IsConsistent body m h
  handle-IsConsistent (deleting_database i) (cron, m) h = delete_database-IsConsistent c i cron m h

  -- Whatever requests to create, update, delete or toggle schedules and to create or delete databases
  -- follow one another, every schedule that is left belongs to a database that is there, and its cron
  -- expression has five words or is the null that an update may store, if this was so before.
  pub handle_all-IsConsistent :
      (rs : List Request) (s : CronState c × Manager)
      → IsConsistent s.1
      → IsConsistent (handle_all c rs s).1
  unfolding handle_all
  handle_all-IsConsistent [] s h = h
  handle_all-IsConsistent (r ∷ rs) s h =
      handle_all-IsConsistent rs (handle c r s) (handle-IsConsistent r s h)
