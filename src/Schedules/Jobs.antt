-- ===== src/Schedules/Jobs.antt =====
-- The crontab after the calls of `CronManager`.
use dbmanager.Base.{
  ℕ, String, ◌≡◌, refl, ap, ◌∙◌, Bool, true, false, some, List, [], ◌∷◌, ◌++◌, not, any, keep,
  arith, str_eq, eq_iff, Option-cases, inl, inr,
}
use text.Mathlib.TextPositions.{eq_refl}
use mathlib.Core.List.{append-nil}
use dbmanager.Schedules.Cron.{
  Job, Crontab, IsCrontab, CronState, job_comment, write_cron, remove_job, add_backup_job,
}

abbrev pub is_job : String → Job → Bool
is_job comment j = str_eq j.comment comment

keep-others :
    (comment : String) (js : List Job)
    → keep (is_job comment) (keep (λ j. not (is_job comment j)) js) ≡ []
keep-others comment [] = refl
keep-others comment (j ∷ js) = ground (arith, keep-others comment js)

keep-keep : (p : Job → Bool) (js : List Job) → keep p (keep p js) ≡ keep p js
keep-keep p [] = refl
keep-keep p (j ∷ js) = ground (arith, keep-keep p js)

keep-append : (p : Job → Bool) (js ks : List Job) → keep p (js ++ ks) ≡ keep p js ++ keep p ks
keep-append p [] ks = refl
keep-append p (j ∷ js) ks = ground (arith, keep-append p js ks)

any-append :
    (j : Job) (comment : String) (js : List Job)
    → j.comment ≡ comment
    → any (is_job comment) (js ++ j ∷ []) ≡ true
any-append j comment [] e = ground (arith, eq_iff j.comment comment)
any-append j comment (k ∷ js) e = ground (arith, any-append j comment js)

any-keep : (p q : Job → Bool) (js : List Job) → any p js ≡ false → any p (keep q js) ≡ false
any-keep p q [] h = refl
any-keep p q (j ∷ js) h = ground (arith, any-keep p q js)

module _ (c : Crontab) (lawful : IsCrontab c) where
  remove_job-jobs :
      (i : ℕ) (s : CronState c)
      → (remove_job c i s).0 ≡ some tt
      → (c.jobs (remove_job c i s).1.file
          ≡ keep (λ j. not (is_job (job_comment c i) j)) (c.jobs s.cron))
        × (c.jobs (remove_job c i s).1.cron
            ≡ keep (λ j. not (is_job (job_comment c i) j)) (c.jobs s.cron))
  unfolding remove_job write_cron
  remove_job-jobs i s h =
      let left = lawful.jobs-remove_all (job_comment c i) s.cron in
      (rw (lawful.written (c.remove_all (job_comment c i) s.cron) s.file h) left, left)

  abbrev made_job : ℕ → String → Job
  made_job i schedule = record {
    command = c.command (c.str i);
    comment = job_comment c i;
    schedule = schedule;
    enabled = true;
  }

  add_backup_job-jobs :
      (i : ℕ) (schedule : String) (s : CronState c)
      → (add_backup_job c i schedule s).0 ≡ some true
      → c.jobs (add_backup_job c i schedule s).1.file
        ≡ keep (λ j. not (is_job (job_comment c i) j)) (c.jobs s.cron) ++ made_job i schedule ∷ []
  unfolding add_backup_job write_cron
  add_backup_job-jobs i schedule s h =
      let s1 = (remove_job c i s).1 in
      let call = c.new_job (c.command (c.str i)) (job_comment c i) schedule s1.cron in
      elim (Option-cases (remove_job c i s).0) [
        | inl e ↦ absurd (ground arith)
        | inr (u, e) ↦ elim (Option-cases call.0) [
          | inl f ↦ absurd (ground arith)
          | inr (v, f) ↦ elim (Option-cases (c.write call.1 s1.file).0) [
            | inl g ↦ absurd (ground arith)
            | inr (w, g) ↦ ground (
              arith,
              lawful.written call.1 s1.file g,
              lawful.jobs-new_job (c.command (c.str i)) (job_comment c i) schedule s1.cron f,
              (remove_job-jobs i s e).1,
            )
          ]
        ]
      ]

  -- After a job was added for a database, the crontab of the user has this one job for it, enabled
  -- and with the given times, and the jobs of other databases and programs that the manager's table
  -- had before, in their order.
  pub add_backup_job-one :
      (i : ℕ) (schedule : String) (s : CronState c)
      → (add_backup_job c i schedule s).0 ≡ some true
      → let js = c.jobs (add_backup_job c i schedule s).1.file in
        (keep (is_job (job_comment c i)) js
          ≡ record {
            command = c.command (c.str i);
            comment = job_comment c i;
            schedule = schedule;
            enabled = true;
          }
            ∷ [])
        × (keep (λ j. not (is_job (job_comment c i) j)) js
            ≡ keep (λ j. not (is_job (job_comment c i) j)) (c.jobs s.cron))
  add_backup_job-one i schedule s h =
      let others = λ (j : Job). not (is_job (job_comment c i) j) in
      let kept = keep others (c.jobs s.cron) in
      let e = add_backup_job-jobs i schedule s h in
      (
        ap (keep (is_job (job_comment c i))) e
            ∙ ground (
              arith,
              keep-append (is_job (job_comment c i)) kept (made_job i schedule ∷ []),
              keep-others (job_comment c i) (c.jobs s.cron),
              eq_refl (job_comment c i),
            ),
        ap (keep others) e
            ∙ ground (
              arith,
              keep-append others kept (made_job i schedule ∷ []),
              keep-keep others (c.jobs s.cron),
              append-nil kept,
              eq_refl (job_comment c i),
            ),
      )

  -- Two managers that were made at the same time each keep a table of their own, as those of the
  -- schedule and the database handlers do. A job that one has added to the crontab is taken off it by
  -- the other when that removes the job of another database, if the other's table does not have it.
  pub stale_remove_job-loses :
      (i j : ℕ) (schedule : String) (s : CronState c) (stale : c.Tab)
      → (add_backup_job c i schedule s).0 ≡ some true
      → any (is_job (job_comment c i)) (c.jobs stale) ≡ false
      → let file = (add_backup_job c i schedule s).1.file in
        let other : CronState c = record { cron = stale; file = file } in
        (remove_job c j other).0 ≡ some tt
        → (any (is_job (job_comment c i)) (c.jobs file) ≡ true)
          × (any (is_job (job_comment c i)) (c.jobs (remove_job c j other).1.file) ≡ false)
  stale_remove_job-loses i j schedule s stale h absent k =
      let file = (add_backup_job c i schedule s).1.file in
      let other : CronState c = record { cron = stale; file = file } in
      (
        rw (add_backup_job-jobs i schedule s h) (
            any-append (made_job i schedule) (job_comment c i)
              (keep (λ j. not (is_job (job_comment c i) j)) (c.jobs s.cron)) refl),
        rw ((remove_job-jobs j other k).0) (
            any-keep (is_job (job_comment c i)) (λ q. not (is_job (job_comment c j) q))
              (c.jobs stale) absent),
      )
