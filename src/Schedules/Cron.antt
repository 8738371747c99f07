-- ===== src/Schedules/Cron.antt =====
-- `CronManager` of backend/core/cron.py. The table that python-crontab holds in memory and the
-- user's crontab are values of a parameter, with the library's operations on them.
use dbmanager.Base.{
  ℕ, String, ◌≡◌, Bool, true, false, Option, none, some, List, [], ◌∷◌, ◌++◌, not, any, keep,
  str_eq, if◌then◌else◌,
}
use dbmanager.Base.Text.{add, contains}

pub record Job : Type 0 where
  pub command : String
  pub comment : String
  pub schedule : String
  pub enabled : Bool

-- python-crontab: `new_job` is `new` with `setall` on the job, with the exception for an expression
-- that cron refuses; `write` gets the table in memory and the crontab of the user, with the exception
-- of the command that installs it. `str` is Python's on an `int`, `command` the command line for it.
pub record Crontab : Type 1 where
  pub Tab : Type 0
  pub jobs : Tab → List Job
  pub remove_all : String → Tab → Tab
  pub new_job : String → String → String → Tab → Option (Unit {0}) × Tab
  pub enable : String → Bool → Tab → Tab
  pub write : Tab → Tab → Option (Unit {0}) × Tab
  pub str : ℕ → String
  pub command : String → String

-- What python-crontab documents of them.
pub record IsCrontab (c : Crontab) : Type 0 where
  pub jobs-remove_all :
      (comment : String) (t : c.Tab)
      → c.jobs (c.remove_all comment t) ≡ keep (λ j. not (str_eq j.comment comment)) (c.jobs t)
  pub jobs-new_job :
      (command comment schedule : String) (t : c.Tab)
      → (c.new_job command comment schedule t).0 ≡ some tt
      → c.jobs (c.new_job command comment schedule t).1
        ≡ c.jobs t
          ++ record { command = command; comment = comment; schedule = schedule; enabled = true }
            ∷ []
  pub written : (t file : c.Tab) → (c.write t file).0 ≡ some tt → (c.write t file).1 ≡ t

-- A manager's table in memory, and the crontab of the user.
pub record CronState (c : Crontab) : Type 0 where
  pub cron : c.Tab
  pub file : c.Tab

module _ (c : Crontab) where
  -- `f"dbmanager-backup:{db_id}"`
  abbrev pub job_comment : ℕ → String
  job_comment db_id = add "dbmanager-backup:" (c.str db_id)

  unfoldable pub write_cron : CronState c → Option (Unit {0}) × CronState c
  write_cron s = let (done, file) = c.write s.cron s.file in (done, record s { file = file })

  unfoldable pub remove_job : ℕ → CronState c → Option (Unit {0}) × CronState c
  remove_job db_id s = write_cron (record s { cron = c.remove_all (job_comment db_id) s.cron })

  -- `True`, or the exception of one of the calls
  unfoldable pub add_backup_job : ℕ → String → CronState c → Option Bool × CronState c
  add_backup_job db_id schedule s =
      let (removed, s1) = remove_job db_id s in
      let (made, tab) = c.new_job (c.command (c.str db_id)) (job_comment db_id) schedule s1.cron in
      let (done, s2) = write_cron (record s1 { cron = tab }) in
      elim removed [
        | none ↦ (none, s1)
        | some _ ↦ elim made [
          | none ↦ (none, record s1 { cron = tab })
          | some _ ↦ (elim done [ none ↦ none | some _ ↦ some true ], s2)
        ]
      ]

  -- `update_schedule` of the manager
  unfoldable pub update_job : ℕ → String → CronState c → Option Bool × CronState c
  update_job db_id schedule s =
      let (removed, s1) = remove_job db_id s in
      elim removed [ none ↦ (none, s1) | some _ ↦ add_backup_job db_id schedule s1 ]

  unfoldable pub set_job_enabled : ℕ → Bool → CronState c → Option Bool × CronState c
  unfolding write_cron
  set_job_enabled db_id enabled s =
      let (done, s') =
        write_cron (record s { cron = c.enable (job_comment db_id) enabled s.cron }) in
      if any (λ j. str_eq j.comment (job_comment db_id)) (c.jobs s.cron)
      then (elim done [ none ↦ none | some _ ↦ some true ], s')
      else (some false, s)

  -- `list_jobs`; the id is the last part of the comment
  unfoldable pub list_jobs : CronState c → List Job
  list_jobs s = keep (λ j. contains "dbmanager-backup" j.comment) (c.jobs s.cron)
