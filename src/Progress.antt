-- ===== src/Progress.antt =====
-- `BackupProgress` of backend/core/progress.py: the state that its methods change. The lock, the
-- callback and the two clock readings are left out, except whether there is one.
pub mod Percentage
mod Tests
use dbmanager.Base.{
  ℕ, ◌+◌, String, Bool, true, false, Option, none, some, List, [], ◌∷◌, ltb, if◌then◌else◌,
}
use dbmanager.Base.Text.{add}

pub data ProgressStatus : Type 0 where
  idle preparing running completed failed : ProgressStatus

pub record BackupProgress : Type 0 where
  pub status : ProgressStatus
  pub percentage : ℕ
  pub message : String
  pub current_step : String
  pub total_steps : ℕ
  pub completed_steps : ℕ
  pub has_start_time : Bool
  pub has_end_time : Bool
  pub error : Option String

abbrev pub new_progress : BackupProgress
new_progress = record {
  status = idle;
  percentage = 0;
  message = "";
  current_step = "";
  total_steps = 0;
  completed_steps = 0;
  has_start_time = false;
  has_end_time = false;
  error = none;
}

unfoldable pub start : String → BackupProgress → BackupProgress
start message p = record p {
  status = preparing;
  message = message;
  percentage = 0;
  has_start_time = true;
  has_end_time = false;
  error = none;
}

-- `max(0, min(100, percentage))`; a number below zero is 0 already
unfoldable pub clamp : ℕ → ℕ
clamp n = if ltb 100 n then 100 else n

unfoldable pub update : Option ℕ → Option String → Option String → BackupProgress → BackupProgress
unfolding clamp
update percentage message step p = record p {
  status = elim p.status [
    | idle ↦ running
    | preparing ↦ preparing
    | running ↦ running
    | completed ↦ completed
    | failed ↦ failed
  ];
  percentage = elim percentage [ none ↦ p.percentage | some n ↦ clamp n ];
  message = elim message [ none ↦ p.message | some m ↦ m ];
  current_step = elim step [ none ↦ p.current_step | some s ↦ s ];
}

unfoldable pub set_steps : ℕ → BackupProgress → BackupProgress
set_steps total p = record p { total_steps = total; completed_steps = 0 }

-- `percent c t` is `int((c / t) * 100)` in the floating-point arithmetic of the platform.
unfoldable pub step_completed : (ℕ → ℕ → ℕ) → String → BackupProgress → BackupProgress
step_completed percent step_name p =
    let done = p.completed_steps + 1 in
    record p {
      completed_steps = done;
      percentage = if ltb 0 p.total_steps then percent done p.total_steps else p.percentage;
      current_step = step_name;
    }

unfoldable pub complete : String → BackupProgress → BackupProgress
complete message p = record p {
  status = completed;
  percentage = 100;
  message = message;
  has_end_time = true;
}

unfoldable pub fail : String → BackupProgress → BackupProgress
fail error p = record p {
  status = failed;
  error = some error;
  message = add "Failed: " error;
  has_end_time = true;
}

-- A call of one of the methods.
pub data Call : Type 0 where
  starting : String → Call
  updating : Option ℕ → Option String → Option String → Call
  stepping : ℕ → Call
  finishing_step : String → Call
  completing : String → Call
  failing : String → Call

unfoldable pub perform : (ℕ → ℕ → ℕ) → Call → BackupProgress → BackupProgress
unfolding start update set_steps step_completed complete fail
perform percent (starting m) p = start m p
perform percent (updating n m s) p = update n m s p
perform percent (stepping t) p = set_steps t p
perform percent (finishing_step s) p = step_completed percent s p
perform percent (completing m) p = complete m p
perform percent (failing e) p = fail e p

-- The calls of an operation, one after the other.
unfoldable pub perform_all : (ℕ → ℕ → ℕ) → List Call → BackupProgress → BackupProgress
unfolding perform
perform_all percent [] p = p
perform_all percent (c ∷ cs) p = perform_all percent cs (perform percent c p)
