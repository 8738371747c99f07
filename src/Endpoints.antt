-- ===== src/Endpoints.antt =====
-- The handlers of backend/api/routers/backups.py on the state that they share. `resolve`, the
-- operating system and the storage targets are parameters, and so are the texts of their exceptions,
-- `error`. A handler that starts a task leaves its job in the queue, from which the server runs it
-- after the reply.
pub mod Paths
pub mod Listing
pub mod Sync
pub mod Transfers
pub mod Untouched
pub mod Confined
pub mod Refused
pub mod Followed
mod Tests
use dbmanager.Base.{
  ℕ, String, Bool, true, false, Option, none, some, List, [], ◌∷◌, ◌++◌, ◌&&◌, ◌||◌, not, str_eq,
  is_some, ◌==◌, if◌then◌else◌,
}
use dbmanager.Base.Text.{add}
use dbmanager.Base.Outcome.{Reply, ok, http}
use dbmanager.Json.{Json, bool, str, dict, end, field}
use dbmanager.Audit.{Entry, AuditLog, record_audit}
use dbmanager.Users.{User}
use dbmanager.Config.{Manager, get_database, truthy_id}
use dbmanager.Storage.Targets.{Targets}
use dbmanager.Storage.{Bytes}
use dbmanager.Backups.{sha256}
use dbmanager.Protect.{Tools}
use dbmanager.Integrity.Remote.{verify_s3}
use dbmanager.Tasks.{
  Task, Work, create_task, get_task, update_task, fail_task, started_task, run_backup_task,
  run_restore_task,
}
use dbmanager.Endpoints.Paths.{FilePath, Disk, System, resolve_local_backup, unlink_backup}

-- What `background_tasks.add_task` is given.
pub data Job : Type 0 where
  backup_job : String → ℕ → Job
  restore_job : String → ℕ → FilePath → Bool → Job
  restore_s3_job : String → ℕ → String → Job

pub record App (s : Targets) : Type 0 where
  pub manager : Manager
  pub audit : AuditLog
  pub disk : Disk
  pub tasks : List Task
  pub queue : List Job
  pub remote : s.World

pub record RestoreRequest : Type 0 where
  pub backup_file : String
  pub location : String
  pub skip_safety_snapshot : Bool

-- `str(path)` for a path below the root
unfoldable pub str_path : FilePath → String
str_path [] = ""
str_path (x ∷ xs) = add "/" (add x (str_path xs))

abbrev pub entry_for : User → String → String → String → Option ℕ → Json → Entry
entry_for current action status resource db_id details = record {
  action = action;
  status = status;
  user_id = some current.id;
  username_snapshot = some current.username;
  resource_type = some resource;
  resource_id = if truthy_id db_id then db_id else none;
  details = details;
}

module _ (lower : String → String) (s : Targets) where
  abbrev pub audited : Entry → App s → App s
  audited e app = record app { audit = record_audit lower e app.audit }

  -- `_get_s3_storage`, the id of the target
  unfoldable pub get_s3_storage : ℕ → App s → Reply ℕ
  get_s3_storage db app = elim (get_database db app.manager) [
    | none ↦ http 404
    | some cfg ↦
        if not cfg.s3_enabled || not (truthy_id cfg.s3_bucket_id)
        then http 400
        else elim cfg.s3_bucket_id [
          | none ↦ http 400
          | some i ↦ if s.exists i app.remote then ok i else http 404
        ]
  ]

  -- The task, its job and the audit entry; the reply is the id of the task, which `uuid4` gives.
  unfoldable pub backup_with : User → String → ℕ → ℕ → String → App s → Reply String × App s
  backup_with current uuid now db name app =
      let (task_id, ts) = create_task uuid now "backup" (add "Backup database: " name) app.tasks in
      let details : Json =
        dict (field "task_id" (str task_id) (field "database_name" (str name) end)) in
      (
        ok task_id,
        audited (entry_for current "backup.start" "success" "database" (some db) details)
            (record app { tasks = ts; queue = app.queue ++ backup_job task_id db ∷ [] }),
      )

  unfoldable pub start_backup : User → String → ℕ → ℕ → App s → Reply String × App s
  start_backup current uuid now db app = elim (get_database db app.manager) [
    | none ↦ (http 404, app)
    | some cfg ↦ backup_with current uuid now db cfg.name app
  ]

  unfoldable pub restore_with :
      User
      → String
      → ℕ
      → ℕ
      → RestoreRequest
      → String
      → (String → Job)
      → App s
      → Reply String × App s
  restore_with current uuid now db r name job app =
      let (task_id, ts) =
        create_task uuid now "restore" (add "Restore database: " name) app.tasks in
      let details : Json = dict (
        field "task_id" (str task_id) (
          field "location" (str r.location) (
            field "backup_file" (str r.backup_file)
              (field "skip_safety_snapshot" (bool r.skip_safety_snapshot) end)))) in
      (
        ok task_id,
        audited (entry_for current "restore.start" "success" "database" (some db) details)
            (record app { tasks = ts; queue = app.queue ++ job task_id ∷ [] }),
      )

  unfoldable pub start_restore :
      System → User → String → ℕ → ℕ → RestoreRequest → App s → Reply String × App s
  start_restore sys current uuid now db r app = elim (get_database db app.manager) [
    | none ↦ (http 404, app)
    | some cfg ↦
        if str_eq r.location "s3"
        then restore_with current uuid now db r cfg.name (λ i. restore_s3_job i db r.backup_file)
            app
        else if not (str_eq r.location "local")
        then (http 400, app)
        else elim (resolve_local_backup sys r.backup_file) [
          | http c ↦ (http c, app)
          | ok p ↦
              if not (is_some (app.disk p))
              then (http 404, app)
              else restore_with current uuid now db r cfg.name
                  (λ i. restore_job i db p r.skip_safety_snapshot) app
        ]
  ]

  unfoldable pub get_task_status : String → App s → Reply Task
  get_task_status i app = elim (get_task i app.tasks) [ none ↦ http 404 | some t ↦ ok t ]

  -- `check_local` is the local branch of `verify_backup_integrity`. Another location is no error: its
  -- answer is `False`.
  unfoldable pub verify_backup :
      Tools
      → (Bytes → List String)
      → System
      → (FilePath → Disk → Option Bool)
      → String
      → String
      → Option ℕ
      → App s
      → Reply Bool
  verify_backup t decode sys check_local backup_file location db_id app =
      let answer : Option Bool → Reply Bool = λ o. elim o [ none ↦ http 500 | some b ↦ ok b ] in
      if str_eq location "s3"
      then (if not (truthy_id db_id)
          then http 400
          else answer (verify_s3 t s decode db_id app.manager backup_file app.remote))
      else if str_eq location "local"
      then elim (resolve_local_backup sys backup_file) [
        | http c ↦ http c
        | ok p ↦ if not (is_some (app.disk p)) then http 404 else answer (check_local p app.disk)
      ]
      else ok false

  delete_details : String → String → Option String → Json
  delete_details f location error = dict (
      field "backup_file" (str f) (
        field "location" (str location)
          (elim error [ none ↦ end | some e ↦ field "error" (str e) end ])))

  unfoldable pub delete_local :
      System → String → User → String → Option ℕ → App s → Reply (Unit {0}) × App s
  unfolding delete_details
  delete_local sys error current f db_id app = elim (resolve_local_backup sys f) [
    | http c ↦ (http c, app)
    | ok p ↦
        if not (is_some (app.disk p))
        then (http 404, app)
        else (let (done, disk') = unlink_backup sys p app.disk in
            let left : App s = record app { disk = disk' } in
            let entry = λ (status : String) (e : Option String).
              entry_for current "backup.delete" status "backup" db_id
                (delete_details (str_path p) "local" e) in
            if done
            then (ok tt, audited (entry "success" none) left)
            else (http 500, audited (entry "failure" (some error)) left))
  ]

  unfoldable pub delete_s3 : String → User → String → Option ℕ → App s → Reply (Unit {0}) × App s
  unfolding delete_details
  delete_s3 error current f db_id app = elim (if truthy_id db_id then db_id else none) [
    | none ↦ (http 400, app)
    | some db ↦ elim (get_database db app.manager) [
      | none ↦ (http 400, app)
      | some cfg ↦ elim (if truthy_id cfg.s3_bucket_id then cfg.s3_bucket_id else none) [
        | none ↦ (http 400, app)
        | some i ↦
            if not (s.exists i app.remote)
            then (http 404, app)
            else (let (deleted, w) = s.delete i f app.remote in
                let entry = λ (status : String) (e : Option String).
                  entry_for current "backup.delete" status "backup" db_id
                    (delete_details f "s3" e) in
                elim deleted [
                  | none ↦
                      (http 500, audited (entry "failure" (some error)) (record app { remote = w }))
                  | some _ ↦ (
                    ok tt,
                    audited (entry "success" none)
                        (record app { remote = (s.delete i (sha256 f) w).1 }),
                  )
                ])
      ]
    ]
  ]

  unfoldable pub delete_backup :
      System → String → User → String → String → Option ℕ → App s → Reply (Unit {0}) × App s
  delete_backup sys error current f location db_id app =
      if str_eq location "local"
      then delete_local sys error current f db_id app
      else if str_eq location "s3"
      then delete_s3 error current f db_id app
      else (http 400, app)

  -- The download of a backup and its checksum for a restore; `some` is the text of an exception. A
  -- checksum that cannot be downloaded is passed over.
  unfoldable pub fetch_error : String → ℕ → String → App s → Option String
  fetch_error error db key app = elim (get_s3_storage db app) [
    | http c ↦ some error
    | ok i ↦ elim (s.download i key app.remote) [
      | none ↦ some error
      | some got ↦ elim got [
        | none ↦ some "Failed to download backup from S3"
        | some b ↦ elim (s.get_file_info i (sha256 key) app.remote) [
          | none ↦ some error
          | some info ↦ elim info [
            | none ↦ none
            | some _ ↦ elim (s.download i (sha256 key) app.remote) [
              | none ↦ some error
              | some _ ↦ none
            ]
          ]
        ]
      ]
    ]
  ]

  -- `work` is the restore of the file that was downloaded.
  unfoldable pub run_restore_from_s3_task :
      (ℕ → ℕ → ℕ) → String → String → ℕ → ℕ → String → Work Bool → App s → App s
  run_restore_from_s3_task percent error i now db key work app =
      let ts = update_task i now (started_task "Downloading backup from S3...") app.tasks in
      elim (fetch_error error db key app) [
        | some e ↦ record app { tasks = fail_task i now e ts }
        | none ↦ record app {
          tasks =
              run_restore_task percent i now work
                (update_task i now (started_task "Starting restore...") ts);
        }
      ]

  -- A job of the queue with what its work does.
  unfoldable pub run_job : (ℕ → ℕ → ℕ) → String → ℕ → Work String → Work Bool → Job → App s → App s
  run_job percent error now backup restore (backup_job i db) app = record app {
    tasks = run_backup_task percent i now backup app.tasks;
  }
  run_job percent error now backup restore (restore_job i db p skip) app = record app {
    tasks = run_restore_task percent i now restore app.tasks;
  }
  run_job percent error now backup restore (restore_s3_job i db key) app =
      run_restore_from_s3_task percent error i now db key restore app
