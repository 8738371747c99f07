-- ===== src/Tasks/Cleanup.antt =====
-- What the cleanup of the task table deletes.
use dbmanager.Base.{
  ℕ, ◌+◌, String, ◌≡◌, Bool, false, some, List, [], ◌∷◌, arith, All, keep, find, length, not,
}
use dbmanager.Tasks.{Task, is_old, has_task_id, get_task, cleanup_old_tasks}

find-keep :
    (i : String) (gone : Task → Bool) (t : Task) (ts : List Task)
    → gone t ≡ false
    → find (has_task_id i) ts ≡ some t
    → find (has_task_id i) (keep (λ u. not (gone u)) ts) ≡ some t
find-keep i gone t [] g h = cc
find-keep i gone t (u ∷ ts) g h = ground (arith, find-keep i gone t ts g)

length-keep-not :
    (gone : Task → Bool) (ts : List Task)
    → length (keep gone ts) + length (keep (λ u. not (gone u)) ts) ≡ length ts
length-keep-not gone [] = omega arith
length-keep-not gone (u ∷ ts) = ground (arith, length-keep-not gone ts)

All-keep-not :
    (gone : Task → Bool) (ts : List Task) → All (λ u. gone u ≡ false) (keep (λ u. not (gone u)) ts)
All-keep-not gone [] = tt
All-keep-not gone (u ∷ ts) = ground (arith, All-keep-not gone ts)

-- A cleanup finds every task as before that is still pending or running or was created within the
-- given hours; it leaves no task that is neither; and it answers how many it has deleted.
pub cleanup_old_tasks-keeps :
    (now max_age_hours : ℕ) (i : String) (t : Task) (ts : List Task)
    → get_task i ts ≡ some t
    → is_old now max_age_hours t ≡ false
    → let (n, left) = cleanup_old_tasks now max_age_hours ts in
      (get_task i left ≡ some t)
      × All (λ u. is_old now max_age_hours u ≡ false) left
      × (n + length left ≡ length ts)
unfolding cleanup_old_tasks get_task
cleanup_old_tasks-keeps now max_age_hours i t ts h young = (
  find-keep i (is_old now max_age_hours) t ts young h,
  All-keep-not (is_old now max_age_hours) ts,
  length-keep-not (is_old now max_age_hours) ts,
)
