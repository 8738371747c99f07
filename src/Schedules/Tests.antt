-- ===== src/Schedules/Tests.antt =====
-- A crontab that holds its jobs in a list, and a configuration with one database.
use dbmanager.Base.{
  ◌≡◌, refl, true, false, none, some, List, [], ◌∷◌, ◌++◌, not, keep, any, map, str_eq, ◌==◌,
  if◌then◌else◌,
}
use dbmanager.Config.{Manager, Config, DbConfig}
use dbmanager.Json.{null}
use dbmanager.Schedules.Cron.{
  Job, Crontab, IsCrontab, CronState, job_comment, add_backup_job, remove_job, write_cron,
}
use dbmanager.Schedules.Jobs.{is_job, add_backup_job-one, stale_remove_job-loses}
use dbmanager.Schedules.Sound.{IsConsistent}
use dbmanager.Schedules.Consistent.{
  Request, creating, updating, toggling, handle_all, handle_all-IsConsistent,
}

abbrev crontab : Crontab
crontab = record {
  Tab = List Job;
  jobs = λ t. t;
  remove_all = λ comment t. keep (λ j. not (str_eq j.comment comment)) t;
  new_job = λ command comment schedule t. (
    some tt,
    t ++ record { command = command; comment = comment; schedule = schedule; enabled = true } ∷ [],
  );
  enable =
      λ comment b t. map (λ j. if str_eq j.comment comment then record j { enabled = b } else j) t;
  write = λ t file. (some tt, t);
  str = λ n. if n == 1 then "1" else "2";
  command = λ n. n;
}

crontab-IsCrontab : IsCrontab crontab
crontab-IsCrontab = record {
  jobs-remove_all = λ comment t. refl;
  jobs-new_job = λ command comment schedule t h. refl;
  written = λ t file h. refl;
}

abbrev empty_cron : CronState crontab
empty_cron = record { cron = []; file = [] }

added : (add_backup_job crontab 1 "0 2 * * *" empty_cron).0 ≡ some true
unfolding add_backup_job remove_job write_cron
added = refl

add_backup_job-one_example :
    let js = crontab.jobs (add_backup_job crontab 1 "0 2 * * *" empty_cron).1.file in
    (keep (is_job (job_comment crontab 1)) js
      ≡ record {
        command = "1";
        comment = job_comment crontab 1;
        schedule = "0 2 * * *";
        enabled = true;
      }
        ∷ [])
    × (keep (λ j. not (is_job (job_comment crontab 1) j)) js ≡ [])
add_backup_job-one_example =
    add_backup_job-one crontab crontab-IsCrontab 1 "0 2 * * *" empty_cron added

removed :
    (remove_job crontab 2
      (record { cron = []; file = (add_backup_job crontab 1 "0 2 * * *" empty_cron).1.file })).0
    ≡ some tt
unfolding remove_job write_cron
removed = refl

stale_remove_job-loses_example :
    (any
        (is_job (job_comment crontab 1))
        (crontab.jobs (add_backup_job crontab 1 "0 2 * * *" empty_cron).1.file)
      ≡ true)
    × (any (is_job (job_comment crontab 1)) (
          crontab.jobs
            (remove_job crontab 2 (record {
              cron = [];
              file = (add_backup_job crontab 1 "0 2 * * *" empty_cron).1.file;
            })).1.file)
        ≡ false)
stale_remove_job-loses_example =
    stale_remove_job-loses crontab crontab-IsCrontab 1 2 "0 2 * * *" empty_cron [] added refl
      removed

abbrev shop : DbConfig
shop = record {
  id = 1;
  name = "shop";
  provider = "postgres";
  params = null;
  retention = 3;
  s3_enabled = false;
  s3_bucket_id = none;
  s3_retention = 0;
  storage_target_ids = [];
}

abbrev config : Config
config = record {
  databases = shop ∷ [];
  storage_targets = [];
  s3_buckets = none;
  config_sync_bucket_id = none;
  schedules = [];
  global_settings = none;
  backup_metadata = λ f. none;
  ping_settings = none;
}

abbrev requests : List Request
requests =
    creating (record { database_id = 1; cron_expression = "0 2 * * *"; enabled = true })
    ∷ updating 1 (record { cron_expression = some (some "never"); enabled = none })
    ∷ updating 1 (record { cron_expression = some none; enabled = some (some false) })
    ∷ toggling 1
    ∷ creating (record { database_id = 7; cron_expression = "0 2 * * *"; enabled = true })
    ∷ []

abbrev start : CronState crontab × Manager
start = (empty_cron, record { config = config; disk = config })

handle_all-IsConsistent_example : IsConsistent (handle_all crontab requests start).1
handle_all-IsConsistent_example = handle_all-IsConsistent crontab requests start tt
