-- ===== src/Progress/Tests.antt =====
-- A report of an operation of two steps.
use dbmanager.Base.{ℕ, ◌≡◌, refl, true, arith, List, [], ◌∷◌, ltb, if◌then◌else◌}
use dbmanager.Progress.{
  Call, starting, stepping, finishing_step, failing, new_progress, perform, perform_all, start,
  set_steps, step_completed,
}
use dbmanager.Progress.Percentage.{IsPercent, IsReport, all_counted, perform_all-IsReport}

-- Exact for the steps of a two-step operation.
abbrev halves : ℕ → ℕ → ℕ
halves c t = if ltb c t then 50 else 100

halves-IsPercent : IsPercent halves
halves-IsPercent c t h = ground arith

abbrev calls : List Call
calls =
    starting "backup"
    ∷ stepping 2
    ∷ finishing_step "dump"
    ∷ finishing_step "compress"
    ∷ failing "disk full"
    ∷ []

calls_counted : all_counted halves calls new_progress ≡ true
unfolding perform start set_steps step_completed
calls_counted = refl

perform_all-IsReport_example : IsReport (perform_all halves calls new_progress)
perform_all-IsReport_example =
    perform_all-IsReport halves halves-IsPercent calls new_progress calls_counted
      (record { in_range = omega arith; ended = refl; explained = refl })
