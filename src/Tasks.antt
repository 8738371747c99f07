-- ===== src/Tasks.antt =====
-- The table of background tasks: `TaskManager` of backend/api/task_manager.py, and the tasks
-- `run_backup_task` and `run_restore_task` of backend/api/routers/backups.py that fill it. Times are
-- seconds. What the backup or the restore reports on its `BackupProgress`, and how it ends, is given
-- as a value; the callback hands each report on to the table.
pub mod Ends
pub mod Cleanup
pub mod Tests
use dbmanager.Base.{
  ℕ, ◌-◌, ◌*◌, String, Bool, true, false, Option, none, some, List, [], ◌∷◌, ◌++◌, ◌&&◌, not,
  str_eq, ltb, keep, find, length, if◌then◌else◌,
}
use dbmanager.Base.Text.{add}
use dbmanager.Json.{Json, bool, str, dict, end, field}
use dbmanager.Progress.{
  ProgressStatus, BackupProgress, new_progress, Call, starting, updating, stepping, finishing_step,
  completing, failing, perform,
}

pub data TaskStatus : Type 0 where
  pending running completed failed : TaskStatus

pub record Task : Type 0 where
  pub id : String
  pub task_type : String
  pub description : String
  pub status : TaskStatus
  pub progress : ℕ
  pub message : String
  pub created_at : ℕ
  pub updated_at : ℕ
  pub completed_at : Option ℕ
  pub error : Option String
  pub result : Option Json

abbrev pub has_task_id : String → Task → Bool
has_task_id i t = str_eq t.id i

abbrev pub is_done : TaskStatus → Bool
is_done completed = true
is_done failed = true
is_done _ = false

-- `uuid4` gives the id.
unfoldable pub create_task : String → ℕ → String → String → List Task → String × List Task
create_task uuid now task_type description ts = (
  uuid,
  ts
      ++ record {
        id = uuid;
        task_type = task_type;
        description = description;
        status = pending;
        progress = 0;
        message = "Task created";
        created_at = now;
        updated_at = now;
        completed_at = none;
        error = none;
        result = none;
      }
        ∷ [],
)

unfoldable pub get_task : String → List Task → Option Task
get_task i ts = find (has_task_id i) ts

-- `update_task`, the keywords as a change of the entry; an unknown id changes nothing
unfoldable pub update_task : String → ℕ → (Task → Task) → List Task → List Task
update_task i now change [] = []
update_task i now change (t ∷ ts) =
    let rest = update_task i now change ts in
    if str_eq t.id i then record (change t) { updated_at = now } ∷ ts else t ∷ rest

abbrev pub status_of : ProgressStatus → TaskStatus
status_of ProgressStatus.idle = pending
status_of ProgressStatus.preparing = running
status_of ProgressStatus.running = running
status_of ProgressStatus.completed = completed
status_of ProgressStatus.failed = failed

abbrev pub show_progress : ℕ → BackupProgress → Task → Task
show_progress now p t = record t {
  status = status_of p.status;
  progress = p.percentage;
  message = p.message;
  error = p.error;
  completed_at = if is_done (status_of p.status) then some now else t.completed_at;
}

unfoldable pub update_from_progress : String → ℕ → BackupProgress → List Task → List Task
update_from_progress i now p ts = update_task i now (show_progress now p) ts

abbrev pub completed_task : ℕ → Option Json → Task → Task
completed_task now result t = record t {
  status = completed;
  progress = 100;
  message = "Task completed successfully";
  completed_at = some now;
  result = result;
}

unfoldable pub complete_task : String → ℕ → Option Json → List Task → List Task
complete_task i now result ts = update_task i now (completed_task now result) ts

abbrev pub failed_task : ℕ → String → Task → Task
failed_task now error t = record t {
  status = failed;
  message = add "Task failed: " error;
  error = some error;
  completed_at = some now;
}

unfoldable pub fail_task : String → ℕ → String → List Task → List Task
fail_task i now error ts = update_task i now (failed_task now error) ts

-- the tasks that `cleanup_old_tasks` deletes; a cutoff below zero deletes none
abbrev pub is_old : ℕ → ℕ → Task → Bool
is_old now max_age_hours t = ltb t.created_at (now - max_age_hours * 3600) && is_done t.status

unfoldable pub cleanup_old_tasks : ℕ → ℕ → List Task → ℕ × List Task
cleanup_old_tasks now max_age_hours ts =
    (length (keep (is_old now max_age_hours) ts), keep (λ t. not (is_old now max_age_hours t)) ts)

-- How the work of a task ends: a value, or an exception with its text.
pub data Outcome (A : Type 0) : Type 0 where
  returned : A → Outcome A
  raised : String → Outcome A

-- The work: its calls on the progress tracker, each with its time, and its end.
pub record Work (A : Type 0) : Type 0 where
  pub calls : List (ℕ × Call)
  pub outcome : Outcome A
  pub ended_at : ℕ

-- `set_steps` is the one method that does not call `_notify`.
abbrev pub notifies : Call → Bool
notifies (stepping n) = false
notifies _ = true

-- The callback after each of the calls.
unfoldable pub report_all :
    (ℕ → ℕ → ℕ) → String → List (ℕ × Call) → BackupProgress → List Task → List Task
report_all percent i [] p ts = ts
report_all percent i ((now, c) ∷ cs) p ts =
    let p' = perform percent c p in
    report_all percent i cs p' (if notifies c then update_from_progress i now p' ts else ts)

abbrev pub started_task : String → Task → Task
started_task message t = record t { status = running; message = message }

unfoldable pub run_backup_task : (ℕ → ℕ → ℕ) → String → ℕ → Work String → List Task → List Task
run_backup_task percent i now work ts =
    let ts' =
      report_all percent i work.calls new_progress
        (update_task i now (started_task "Starting backup...") ts) in
    elim work.outcome [
      | returned path ↦
          complete_task i work.ended_at (some (dict (field "backup_path" (str path) end))) ts'
      | raised e ↦ fail_task i work.ended_at e ts'
    ]

unfoldable pub run_restore_task : (ℕ → ℕ → ℕ) → String → ℕ → Work Bool → List Task → List Task
run_restore_task percent i now work ts =
    let ts' =
      report_all percent i work.calls new_progress
        (update_task i now (started_task "Starting restore...") ts) in
    elim work.outcome [
      | returned success ↦
          if success
          then complete_task i work.ended_at (some (dict (field "restored" (bool true) end))) ts'
          else fail_task i work.ended_at "Restore returned False" ts'
      | raised e ↦ fail_task i work.ended_at e ts'
    ]
