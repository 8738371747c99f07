-- ===== src/Tasks/Tests.antt =====
-- A backup task beside another one.
use dbmanager.Base.{
  ℕ, ◌+◌, String, Bool, ◌≡◌, refl, none, some, [], ◌∷◌, All, length, false, ltb, if◌then◌else◌,
}
use dbmanager.Progress.{starting, updating, finishing_step, stepping}
use dbmanager.Tasks.{pending, Task, Work, returned, raised, get_task, is_old, cleanup_old_tasks}
use dbmanager.Tasks.Cleanup.{cleanup_old_tasks-keeps}

abbrev other_task : Task
other_task = record {
  id = "t0";
  task_type = "backup";
  description = "Backup database: shop";
  status = pending;
  progress = 0;
  message = "Task created";
  created_at = 5;
  updated_at = 5;
  completed_at = none;
  error = none;
  result = none;
}

abbrev pub halves : ℕ → ℕ → ℕ
halves c t = if ltb c t then 50 else 100

abbrev pub dump_work : Work String
dump_work = record {
  calls = (11, starting "Dumping") ∷ (12, stepping 2) ∷ (13, finishing_step "dump") ∷ [];
  outcome = returned "/data/shop.sql";
  ended_at = 20;
}

abbrev pub load_work : Work Bool
load_work = record {
  calls = (11, updating (some 30) none none) ∷ [];
  outcome = raised "connection lost";
  ended_at = 20;
}

other_task_there : get_task "t0" (other_task ∷ []) ≡ some other_task
unfolding get_task
other_task_there = refl

other_task_kept :
    let (n, left) = cleanup_old_tasks 1000000 24 (other_task ∷ []) in
    (get_task "t0" left ≡ some other_task)
    × All (λ u. is_old 1000000 24 u ≡ false) left
    × (n + length left ≡ 1)
other_task_kept =
    cleanup_old_tasks-keeps 1000000 24 "t0" other_task (other_task ∷ []) other_task_there refl
