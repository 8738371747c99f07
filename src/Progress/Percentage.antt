-- ===== src/Progress/Percentage.antt =====
-- What a progress report shows after any sequence of calls.
use dbmanager.Base.{
  ℕ, ◌+◌, ◌≤◌, ◌≡◌, refl, Bool, true, false, List, [], ◌∷◌, ◌&&◌, ◌||◌, not, arith, ltb, leb,
  is_some,
}
use dbmanager.Progress.{
  ProgressStatus, completed, failed, BackupProgress, Call, starting, updating, stepping,
  finishing_step, completing, failing, clamp, start, update, set_steps, step_completed, complete,
  fail, perform, perform_all,
}

-- The quotient of the platform is at most 100 for a part of the whole.
abbrev pub IsPercent : (ℕ → ℕ → ℕ) → Type 0
IsPercent percent = (c t : ℕ) → c ≤ t → percent c t ≤ 100

-- A step is finished only where one of the announced steps is left, or none was announced.
abbrev pub is_counted : Call → BackupProgress → Bool
is_counted (finishing_step s) p = leb p.total_steps 0 || ltb p.completed_steps p.total_steps
is_counted _ p = true

abbrev pub all_counted : (ℕ → ℕ → ℕ) → List Call → BackupProgress → Bool
all_counted percent [] p = true
all_counted percent (c ∷ cs) p = is_counted c p && all_counted percent cs (perform percent c p)

abbrev pub is_finished : ProgressStatus → Bool
is_finished completed = true
is_finished failed = true
is_finished _ = false

abbrev pub is_failed : ProgressStatus → Bool
is_failed failed = true
is_failed _ = false

pub record IsReport (p : BackupProgress) : Type 0 where
  pub in_range : p.percentage ≤ 100
  pub ended : p.has_end_time ≡ is_finished p.status
  pub explained : (is_failed p.status && not (is_some p.error)) ≡ false

module _ (percent : ℕ → ℕ → ℕ) (sound : IsPercent percent) where
  perform-IsReport :
      (c : Call) (p : BackupProgress)
      → is_counted c p ≡ true
      → IsReport p
      → IsReport (perform percent c p)
  unfolding perform start update clamp set_steps step_completed complete fail
  perform-IsReport (starting m) p k h = record {
    in_range = omega arith;
    ended = refl;
    explained = refl;
  }
  perform-IsReport (updating n m s) p k h = record {
    in_range = ground (arith, h.in_range);
    ended = ground (arith, h.ended);
    explained = ground (arith, h.explained);
  }
  perform-IsReport (stepping t) p k h = record {
    in_range = h.in_range;
    ended = h.ended;
    explained = h.explained;
  }
  perform-IsReport (finishing_step s) p k h = record {
    in_range = ground (arith, h.in_range, sound (p.completed_steps + 1) p.total_steps);
    ended = h.ended;
    explained = h.explained;
  }
  perform-IsReport (completing m) p k h = record {
    in_range = omega arith;
    ended = refl;
    explained = refl;
  }
  perform-IsReport (failing e) p k h = record {
    in_range = h.in_range;
    ended = refl;
    explained = refl;
  }

  -- Along any sequence of calls that finishes no more steps than were announced, a valid report stays
  -- one: its percentage is at most 100, it has an end time exactly when the operation is completed or
  -- failed, and a failed one has an error. The quotient of the platform is at most 100 for a part of
  -- the whole.
  pub perform_all-IsReport :
      (cs : List Call) (p : BackupProgress)
      → all_counted percent cs p ≡ true
      → IsReport p
      → IsReport (perform_all percent cs p)
  unfolding perform_all
  perform_all-IsReport [] p k h = h
  perform_all-IsReport (c ∷ cs) p k h =
      perform_all-IsReport cs (perform percent c p) (ground arith)
        (perform-IsReport c p (ground arith) h)
