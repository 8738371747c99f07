-- ===== src/Tasks/Ends.antt =====
-- A background task that was created ends, and the others are left alone.
use dbmanager.Base.{
  ℕ, String, ◌≡◌, refl, ◌∙◌, Bool, true, false, Option, none, some, List, [], ◌∷◌, ◌++◌, arith,
  str_eq, eq_iff, Option-cases, inl, inr, is_some, if◌then◌else◌,
}
use text.Mathlib.TextPositions.{eq_refl}
use dbmanager.Json.{Json}
use dbmanager.Progress.{BackupProgress, Call, perform, new_progress}
use dbmanager.Tasks.{
  completed, failed, Task, Outcome, returned, raised, Work, get_task, update_task,
  update_from_progress, show_progress, create_task, complete_task, completed_task, fail_task,
  failed_task, report_all, started_task, run_backup_task, run_restore_task, notifies,
}

pub get_task-update_task :
    (j i : String) (now : ℕ) (change : Task → Task) (ts : List Task)
    → ((t : Task) → (change t).id ≡ t.id)
    → get_task j (update_task i now change ts) ≡ elim (get_task j ts) [
      | none ↦ none
      | some t ↦ some (if str_eq i j then record (change t) { updated_at = now } else t)
    ]
unfolding get_task update_task
get_task-update_task j i now change [] h = refl
get_task-update_task j i now change (t ∷ ts) h =
    ground (
      arith,
      get_task-update_task j i now change ts h,
      h t,
      eq_iff t.id i,
      eq_iff t.id j,
      eq_iff i j,
    )

abbrev pub IsCompleted : ℕ → Task → Type 0
IsCompleted now t =
    (t.status ≡ completed)
    × (t.progress ≡ 100)
    × (t.completed_at ≡ some now)
    × (is_some t.result ≡ true)

abbrev pub IsFailed : ℕ → String → Task → Type 0
IsFailed now e t = (t.status ≡ failed) × (t.error ≡ some e) × (t.completed_at ≡ some now)

complete_task-IsCompleted :
    (i : String) (now : ℕ) (j : Json) (ts : List Task)
    → is_some (get_task i ts) ≡ true
    → (t : Task) × (get_task i (complete_task i now (some j) ts) ≡ some t) × IsCompleted now t
unfolding complete_task
complete_task-IsCompleted i now j ts h = elim (Option-cases (get_task i ts)) [
  | inl e ↦ absurd (ground arith)
  | inr (t, e) ↦ (
    record (completed_task now (some j) t) { updated_at = now },
    ground (
      arith,
      get_task-update_task i i now (completed_task now (some j)) ts (λ t. refl),
      eq_refl i,
    ),
    (refl, refl, refl, refl),
  )
]

pub fail_task-IsFailed :
    (i : String) (now : ℕ) (error : String) (ts : List Task)
    → is_some (get_task i ts) ≡ true
    → (t : Task) × (get_task i (fail_task i now error ts) ≡ some t) × IsFailed now error t
unfolding fail_task
fail_task-IsFailed i now error ts h = elim (Option-cases (get_task i ts)) [
  | inl e ↦ absurd (ground arith)
  | inr (t, e) ↦ (
    record (failed_task now error t) { updated_at = now },
    ground (arith, get_task-update_task i i now (failed_task now error) ts (λ t. refl), eq_refl i),
    (refl, refl, refl),
  )
]

complete_task-other :
    (i j : String) (now : ℕ) (result : Option Json) (ts : List Task)
    → str_eq i j ≡ false
    → get_task j (complete_task i now result ts) ≡ get_task j ts
unfolding complete_task
complete_task-other i j now result ts h = ground (
  arith,
  get_task-update_task j i now (completed_task now result) ts (λ t. refl),
  Option-cases (get_task j ts),
)

fail_task-other :
    (i j : String) (now : ℕ) (error : String) (ts : List Task)
    → str_eq i j ≡ false
    → get_task j (fail_task i now error ts) ≡ get_task j ts
unfolding fail_task
fail_task-other i j now error ts h = ground (
  arith,
  get_task-update_task j i now (failed_task now error) ts (λ t. refl),
  Option-cases (get_task j ts),
)

-- How a backup task has ended, by the end of its work.
abbrev pub IsBackupEnd : ℕ → Outcome String → Task → Type 0
IsBackupEnd now (returned path) t = IsCompleted now t
IsBackupEnd now (raised e) t = IsFailed now e t

abbrev pub IsRestoreEnd : ℕ → Outcome Bool → Task → Type 0
IsRestoreEnd now (returned true) t = IsCompleted now t
IsRestoreEnd now (returned false) t = IsFailed now "Restore returned False" t
IsRestoreEnd now (raised e) t = IsFailed now e t

get_task-append :
    (i : String) (t : Task) (ts : List Task) → t.id ≡ i → is_some (get_task i (ts ++ t ∷ [])) ≡ true
unfolding get_task
get_task-append i t [] e = ground (arith, eq_iff t.id i)
get_task-append i t (u ∷ ts) e = ground (arith, get_task-append i t ts e)

get_task-append_other :
    (j : String) (t : Task) (ts : List Task)
    → str_eq t.id j ≡ false
    → get_task j (ts ++ t ∷ []) ≡ get_task j ts
unfolding get_task
get_task-append_other j t [] e = ground arith
get_task-append_other j t (u ∷ ts) e = ground (arith, get_task-append_other j t ts e)

pub create_task-is_some :
    (i : String) (now : ℕ) (kind description : String) (ts : List Task)
    → is_some (get_task i (create_task i now kind description ts).1) ≡ true
unfolding create_task
create_task-is_some i now kind description ts = get_task-append i _ ts refl

create_task-other :
    (i j : String) (now : ℕ) (kind description : String) (ts : List Task)
    → str_eq i j ≡ false
    → get_task j (create_task i now kind description ts).1 ≡ get_task j ts
unfolding create_task
create_task-other i j now kind description ts h = get_task-append_other j _ ts h

module _ (percent : ℕ → ℕ → ℕ) (i : String) where
  report_all-is_some :
      (cs : List (ℕ × Call)) (p : BackupProgress) (ts : List Task)
      → is_some (get_task i ts) ≡ true
      → is_some (get_task i (report_all percent i cs p ts)) ≡ true
  unfolding report_all update_from_progress
  report_all-is_some [] p ts h = h
  report_all-is_some ((now, c) ∷ cs) p ts h =
      let p' = perform percent c p in
      report_all-is_some cs p' (if notifies c then update_from_progress i now p' ts else ts) (
        ground
          (arith, get_task-update_task i i now (show_progress now p') ts (λ t. refl), eq_refl i))

  report_all-other :
      (j : String) (cs : List (ℕ × Call)) (p : BackupProgress) (ts : List Task)
      → str_eq i j ≡ false
      → get_task j (report_all percent i cs p ts) ≡ get_task j ts
  unfolding report_all update_from_progress
  report_all-other j [] p ts h = refl
  report_all-other j ((now, c) ∷ cs) p ts h =
      let p' = perform percent c p in
      report_all-other j cs p' (if notifies c then update_from_progress i now p' ts else ts) h
      ∙ ground (
        arith,
        get_task-update_task j i now (show_progress now p') ts (λ t. refl),
        Option-cases (get_task j ts),
      )

  -- The table after the start of a task and all its reports.
  abbrev reported : {A : Type 0} → String → ℕ → Work A → List Task → List Task
  reported message now work ts =
      report_all percent i work.calls new_progress (update_task i now (started_task message) ts)

  reported-is_some :
      {A : Type 0} (message : String) (now : ℕ) (work : Work A) (ts : List Task)
      → is_some (get_task i ts) ≡ true
      → is_some (get_task i (reported message now work ts)) ≡ true
  reported-is_some message now work ts h =
      report_all-is_some work.calls new_progress (update_task i now (started_task message) ts) (
        ground
          (arith, get_task-update_task i i now (started_task message) ts (λ t. refl), eq_refl i))

  reported-other :
      {A : Type 0} (j message : String) (now : ℕ) (work : Work A) (ts : List Task)
      → str_eq i j ≡ false
      → get_task j (reported message now work ts) ≡ get_task j ts
  reported-other j message now work ts h =
      report_all-other j work.calls new_progress (update_task i now (started_task message) ts) h
      ∙ ground (
        arith,
        get_task-update_task j i now (started_task message) ts (λ t. refl),
        Option-cases (get_task j ts),
      )

  pub run_backup_task-IsBackupEnd :
      (now : ℕ) (calls : List (ℕ × Call)) (outcome : Outcome String) (ended_at : ℕ) (ts : List Task)
      → is_some (get_task i ts) ≡ true
      → let work : Work String = record { calls = calls; outcome = outcome; ended_at = ended_at } in
        (t : Task) × (get_task i (run_backup_task percent i now work ts) ≡ some t)
        × IsBackupEnd ended_at outcome t
  unfolding run_backup_task
  run_backup_task-IsBackupEnd now calls (returned path) ended_at ts h =
      let work : Work String = record {
        calls = calls;
        outcome = returned path;
        ended_at = ended_at;
      } in
      complete_task-IsCompleted i ended_at _ (reported "Starting backup..." now work ts)
        (reported-is_some "Starting backup..." now work ts h)
  run_backup_task-IsBackupEnd now calls (raised e) ended_at ts h =
      let work : Work String = record { calls = calls; outcome = raised e; ended_at = ended_at } in
      fail_task-IsFailed i ended_at e (reported "Starting backup..." now work ts)
        (reported-is_some "Starting backup..." now work ts h)

  run_backup_task-other :
      (j : String) (now : ℕ) (work : Work String) (ts : List Task)
      → str_eq i j ≡ false
      → get_task j (run_backup_task percent i now work ts) ≡ get_task j ts
  unfolding run_backup_task
  run_backup_task-other j now work ts h =
      let ts' = reported "Starting backup..." now work ts in
      let kept = reported-other j "Starting backup..." now work ts h in
      elim work.outcome
        as (λ o.
          get_task j (elim o [
            | returned path ↦ complete_task i work.ended_at (some _) ts'
            | raised e ↦ fail_task i work.ended_at e ts'
          ])
          ≡ get_task j ts) [
            | returned path ↦ complete_task-other i j work.ended_at (some _) ts' h ∙ kept
            | raised e ↦ fail_task-other i j work.ended_at e ts' h ∙ kept
          ]

  pub run_restore_task-IsRestoreEnd :
      (now : ℕ) (calls : List (ℕ × Call)) (outcome : Outcome Bool) (ended_at : ℕ) (ts : List Task)
      → is_some (get_task i ts) ≡ true
      → let work : Work Bool = record { calls = calls; outcome = outcome; ended_at = ended_at } in
        (t : Task) × (get_task i (run_restore_task percent i now work ts) ≡ some t)
        × IsRestoreEnd ended_at outcome t
  unfolding run_restore_task
  run_restore_task-IsRestoreEnd now calls (returned true) ended_at ts h =
      let work : Work Bool = record {
        calls = calls;
        outcome = returned true;
        ended_at = ended_at;
      } in
      complete_task-IsCompleted i ended_at _ (reported "Starting restore..." now work ts)
        (reported-is_some "Starting restore..." now work ts h)
  run_restore_task-IsRestoreEnd now calls (returned false) ended_at ts h =
      let work : Work Bool = record {
        calls = calls;
        outcome = returned false;
        ended_at = ended_at;
      } in
      fail_task-IsFailed i ended_at "Restore returned False"
        (reported "Starting restore..." now work ts)
        (reported-is_some "Starting restore..." now work ts h)
  run_restore_task-IsRestoreEnd now calls (raised e) ended_at ts h =
      let work : Work Bool = record { calls = calls; outcome = raised e; ended_at = ended_at } in
      fail_task-IsFailed i ended_at e (reported "Starting restore..." now work ts)
        (reported-is_some "Starting restore..." now work ts h)

  run_restore_task-other :
      (j : String) (now : ℕ) (calls : List (ℕ × Call)) (outcome : Outcome Bool) (ended_at : ℕ)
      (ts : List Task)
      → str_eq i j ≡ false
      → let work : Work Bool = record { calls = calls; outcome = outcome; ended_at = ended_at } in
        get_task j (run_restore_task percent i now work ts) ≡ get_task j ts
  unfolding run_restore_task
  run_restore_task-other j now calls (returned true) ended_at ts h =
      let work : Work Bool = record {
        calls = calls;
        outcome = returned true;
        ended_at = ended_at;
      } in
      complete_task-other i j ended_at _ (reported "Starting restore..." now work ts) h
      ∙ reported-other j "Starting restore..." now work ts h
  run_restore_task-other j now calls (returned false) ended_at ts h =
      let work : Work Bool = record {
        calls = calls;
        outcome = returned false;
        ended_at = ended_at;
      } in
      fail_task-other i j ended_at "Restore returned False"
        (reported "Starting restore..." now work ts) h
      ∙ reported-other j "Starting restore..." now work ts h
  run_restore_task-other j now calls (raised e) ended_at ts h =
      let work : Work Bool = record { calls = calls; outcome = raised e; ended_at = ended_at } in
      fail_task-other i j ended_at e (reported "Starting restore..." now work ts) h
      ∙ reported-other j "Starting restore..." now work ts h

  -- A backup task that was created and has run shows how its work ended, whatever the work reported in
  -- between: completed at 100 percent with a result, or failed with the text of the exception, and in
  -- both cases with the time of the end. A task with another id shows what it showed before.
  pub run_backup_task-ends :
      (j description : String) (created now : ℕ) (work : Work String) (ts : List Task)
      → str_eq i j ≡ false
      → let ts' =
          run_backup_task percent i now work (create_task i created "backup" description ts).1 in
        ((t : Task) × (get_task i ts' ≡ some t) × IsBackupEnd work.ended_at work.outcome t)
        × (get_task j ts' ≡ get_task j ts)
  run_backup_task-ends j description created now work ts h =
      let ts1 = (create_task i created "backup" description ts).1 in
      (
        run_backup_task-IsBackupEnd now work.calls work.outcome work.ended_at ts1
            (create_task-is_some i created "backup" description ts),
        run_backup_task-other j now work ts1 h
            ∙ create_task-other i j created "backup" description ts h,
      )

  -- A restore task that was created and has run shows how its work ended, whatever the work reported
  -- in between: completed at 100 percent where the restore returned `True`, else failed with the text
  -- of the exception, or that the restore returned `False`. A task with another id shows what it
  -- showed before.
  pub run_restore_task-ends :
      (j description : String) (created now : ℕ) (work : Work Bool) (ts : List Task)
      → str_eq i j ≡ false
      → let ts' =
          run_restore_task percent i now work (create_task i created "restore" description ts).1 in
        ((t : Task) × (get_task i ts' ≡ some t) × IsRestoreEnd work.ended_at work.outcome t)
        × (get_task j ts' ≡ get_task j ts)
  run_restore_task-ends j description created now work ts h =
      let ts1 = (create_task i created "restore" description ts).1 in
      (
        run_restore_task-IsRestoreEnd now work.calls work.outcome work.ended_at ts1
            (create_task-is_some i created "restore" description ts),
        run_restore_task-other j now work.calls work.outcome work.ended_at ts1 h
            ∙ create_task-other i j created "restore" description ts h,
      )
