-- ===== src/Endpoints/Followed.antt =====
-- From the request of a backup or a restore to the end of its task.
use dbmanager.Base.{
  ℕ, String, ◌≡◌, refl, sym, Bool, true, none, some, List, [], ◌∷◌, ◌++◌, inl, inr, arith, str_eq,
  Option-cases, Bool-cases, is_some,
}
use mathlib.Core.Path.{subst}
use dbmanager.Base.Text.{add}
use dbmanager.Base.Outcome.{Reply, ok, http}
use dbmanager.Users.{User}
use dbmanager.Config.{get_database}
use dbmanager.Storage.Targets.{Targets}
use dbmanager.Tasks.{
  Task, Work, create_task, get_task, update_task, fail_task, started_task, run_restore_task,
}
use dbmanager.Tasks.Ends.{
  IsBackupEnd, IsRestoreEnd, IsFailed, create_task-is_some, run_backup_task-IsBackupEnd,
  run_restore_task-IsRestoreEnd, fail_task-IsFailed, get_task-update_task,
}
use dbmanager.Endpoints.{
  Job, backup_job, restore_job, restore_s3_job, App, RestoreRequest, backup_with, start_backup,
  restore_with, start_restore, get_task_status, fetch_error, run_restore_from_s3_task, run_job,
}
use dbmanager.Endpoints.Paths.{System, resolve_local_backup}
use dbmanager.Endpoints.Confined.{Reply-cases}

abbrev pub job_id : Job → String
job_id (backup_job i db) = i
job_id (restore_job i db p skip) = i
job_id (restore_s3_job i db key) = i

module _ (lower : String → String) (s : Targets) (percent : ℕ → ℕ → ℕ) (error : String) (now : ℕ)
    (backup : Work String) (restore : Work Bool) where
  -- How the task of a job has ended: a restore from a target may fail on the download.
  abbrev pub IsJobEnd : Job → App s → Task → Type 0
  IsJobEnd (backup_job i db) app t = IsBackupEnd backup.ended_at backup.outcome t
  IsJobEnd (restore_job i db p skip) app t = IsRestoreEnd restore.ended_at restore.outcome t
  IsJobEnd (restore_s3_job i db key) app t = elim (fetch_error lower s error db key app) [
    | none ↦ IsRestoreEnd restore.ended_at restore.outcome t
    | some e ↦ IsFailed now e t
  ]

  -- The end of a job as the polling endpoint shows it.
  abbrev pub ShowsEnd : Job → App s → Type 0
  ShowsEnd j app =
      (t : Task) × (get_task_status lower s (job_id j)
          (run_job lower s percent error now backup restore j app)
        ≡ ok t)
      × IsJobEnd j app t

  shown :
      (i : String) (app : App s) (t : Task)
      → get_task i app.tasks ≡ some t
      → get_task_status lower s i app ≡ ok t
  unfolding get_task_status
  shown i app t e = ground arith

  -- An update of the task leaves it in the table.
  updated-is_some :
      (i message : String) (ts : List Task)
      → is_some (get_task i ts) ≡ true
      → is_some (get_task i (update_task i now (started_task message) ts)) ≡ true
  updated-is_some i message ts h = ground (
    arith,
    get_task-update_task i i now (started_task message) ts (λ t. refl),
    Option-cases (get_task i ts),
  )

  s3_job-ShowsEnd :
      (i : String) (db : ℕ) (key : String) (app : App s)
      → is_some (get_task i app.tasks) ≡ true
      → ShowsEnd (restore_s3_job i db key) app
  unfolding run_job run_restore_from_s3_task
  s3_job-ShowsEnd i db key app h =
      let ts : List Task =
        update_task i now (started_task "Downloading backup from S3...") app.tasks in
      let there = updated-is_some i "Downloading backup from S3..." app.tasks h in
      let ts' : List Task = update_task i now (started_task "Starting restore...") ts in
      let failing = λ (e : String). record app { tasks = fail_task i now e ts } in
      let going : App s = record app { tasks = run_restore_task percent i now restore ts' } in
      elim (fetch_error lower s error db key app)
        as (λ o.
          (t : Task) × (get_task_status lower s i (elim o [ some e ↦ failing e | none ↦ going ])
            ≡ ok t)
          × (elim o [
            | none ↦ IsRestoreEnd restore.ended_at restore.outcome t
            | some e ↦ IsFailed now e t
          ])) [
            | none ↦
                let (t, e, end) =
                  run_restore_task-IsRestoreEnd percent i now restore.calls restore.outcome
                    restore.ended_at ts' (updated-is_some i "Starting restore..." ts there) in
                (t, shown i going t e, end)
            | some e ↦
                let (t, k, end) = fail_task-IsFailed i now e ts there in
                (t, shown i (failing e) t k, end)
          ]

  job-ShowsEnd :
      (j : Job) (app : App s) → is_some (get_task (job_id j) app.tasks) ≡ true → ShowsEnd j app
  unfolding run_job
  job-ShowsEnd (backup_job i db) app h =
      let (t, e, end) =
        run_backup_task-IsBackupEnd percent i now backup.calls backup.outcome backup.ended_at
          app.tasks h in
      (t, shown i (run_job lower s percent error now backup restore (backup_job i db) app) t e, end)
  job-ShowsEnd (restore_job i db p skip) app h =
      let (t, e, end) =
        run_restore_task-IsRestoreEnd percent i now restore.calls restore.outcome restore.ended_at
          app.tasks h in
      (
        t,
        shown i (run_job lower s percent error now backup restore (restore_job i db p skip) app) t
            e,
        end,
      )
  job-ShowsEnd (restore_s3_job i db key) app h = s3_job-ShowsEnd i db key app h

  -- What a handler that answers with a task id leaves: the job of that task at the end of the queue,
  -- and its end once it has run.
  abbrev pub IsFollowed : String → App s → App s → Type 0
  IsFollowed i app app' =
      (j : Job) × (job_id j ≡ i) × (app'.queue ≡ app.queue ++ j ∷ []) × ShowsEnd j app'

  -- A refused request changes nothing.
  abbrev pub Starts : App s → Reply String × App s → Type 0
  Starts app (ok i, app') = IsFollowed i app app'
  Starts app (http c, app') = app' ≡ app

  backup_with-Starts :
      (current : User) (uuid name : String) (now' db : ℕ) (app : App s)
      → Starts app (backup_with lower s current uuid now' db name app)
  unfolding backup_with create_task
  backup_with-Starts current uuid name now' db app =
      let there = create_task-is_some uuid now' "backup" (add "Backup database: " name) app.tasks in
      let app' = (backup_with lower s current uuid now' db name app).1 in
      (backup_job uuid db, refl, refl, job-ShowsEnd (backup_job uuid db) app' there)

  restore_with-Starts :
      (current : User) (uuid name : String) (now' db : ℕ) (r : RestoreRequest) (job : String → Job)
      (app : App s)
      → job_id (job uuid) ≡ uuid
      → Starts app (restore_with lower s current uuid now' db r name job app)
  unfolding restore_with create_task
  restore_with-Starts current uuid name now' db r job app e =
      let there =
        create_task-is_some uuid now' "restore" (add "Restore database: " name) app.tasks in
      let app' = (restore_with lower s current uuid now' db r name job app).1 in
      (job uuid, e, refl, job-ShowsEnd (job uuid) app' (rw e there))

  start_backup-Starts :
      (current : User) (uuid : String) (now' db : ℕ) (app : App s)
      → Starts app (start_backup lower s current uuid now' db app)
  unfolding start_backup
  start_backup-Starts current uuid now' db app =
      elim (get_database db app.manager)
        as (λ o. Starts app (elim o [
          | none ↦ (http 404, app)
          | some cfg ↦ backup_with lower s current uuid now' db cfg.name app
        ])) [ none ↦ refl | some cfg ↦ backup_with-Starts current uuid cfg.name now' db app ]

  -- The reply is one of these two.
  Starts-as : (app : App s) (x y : Reply String × App s) → x ≡ y → Starts app y → Starts app x
  Starts-as app x y e h = subst (Starts app) (sym e) h

  start_restore-Starts :
      (sys : System) (current : User) (uuid : String) (now' db : ℕ) (r : RestoreRequest)
      (app : App s)
      → Starts app (start_restore lower s sys current uuid now' db r app)
  unfolding start_restore
  start_restore-Starts sys current uuid now' db r app =
      let x = start_restore lower s sys current uuid now' db r app in
      elim (Option-cases (get_database db app.manager)) [
        | inl e ↦ Starts-as app x (http 404, app) (ground arith) refl
        | inr (cfg, e) ↦
            let going = λ (job : String → Job).
              restore_with lower s current uuid now' db r cfg.name job app in
            elim (Bool-cases (str_eq r.location "s3")) [
              | inl f ↦
                  let job = λ (i : String). restore_s3_job i db r.backup_file in
                  Starts-as app x (going job) (ground arith)
                    (restore_with-Starts current uuid cfg.name now' db r job app refl)
              | inr f ↦ elim (Bool-cases (str_eq r.location "local")) [
                | inr g ↦ Starts-as app x (http 400, app) (ground arith) refl
                | inl g ↦ elim (Reply-cases (resolve_local_backup sys r.backup_file)) [
                  | inl (c, k) ↦ Starts-as app x (http c, app) (ground arith) refl
                  | inr (p, k) ↦ elim (Option-cases (app.disk p)) [
                    | inl l ↦ Starts-as app x (http 404, app) (ground arith) refl
                    | inr (n, l) ↦
                        let job = λ (i : String). restore_job i db p r.skip_safety_snapshot in
                        Starts-as app x (going job) (ground arith)
                          (restore_with-Starts current uuid cfg.name now' db r job app refl)
                  ]
                ]
              ]
            ]
      ]

  -- A request of a backup or a restore that is refused changes nothing. One that is answered with the
  -- id of a task leaves one more job in the queue, that of this task; when the job has run, the status
  -- of the task shows how the work ended: completed, or failed with its error, also where the download
  -- of the backup failed.
  pub requests-Starts :
      (sys : System) (current : User) (uuid : String) (now' db : ℕ) (r : RestoreRequest)
      (app : App s)
      → Starts app (start_backup lower s current uuid now' db app)
        × Starts app (start_restore lower s sys current uuid now' db r app)
  requests-Starts sys current uuid now' db r app = (
    start_backup-Starts current uuid now' db app,
    start_restore-Starts sys current uuid now' db r app,
  )
