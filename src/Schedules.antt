-- ===== src/Schedules.antt =====
-- Backup schedules: backend/api/routers/schedules.py on the `schedules` of the configuration, and the
-- handlers of backend/api/routers/databases.py that create and delete a database. Cron holds
-- `CronManager` of backend/core/cron.py.
pub mod Cron
pub mod Sound
pub mod Consistent
pub mod Jobs
mod Tests
use dbmanager.Base.{
  ℕ, suc, String, Bool, true, false, Option, none, some, List, [], ◌∷◌, ◌++◌, map, ◌&&◌, ◌||◌, not,
  ◌==◌, any, leb, or_else, find, keep, str_eq, is_some, if◌then◌else◌,
}
use Prim.Native.Char.{code}
use dbmanager.Base.Text.{is_space}
use dbmanager.Base.Outcome.{Reply, ok, http}
use dbmanager.Json.{Json}
use dbmanager.Config.{
  DbConfig, Schedule, Config, Manager, set_config, save_config, next_id, get_database, add_database,
  remove_database, truthy_id,
}
use dbmanager.Schedules.Cron.{Crontab, CronState, remove_job}

-- The number of words of `s.split()`; `within` says whether a word is going on.
unfoldable pub count_words : Bool → String → ℕ
count_words within String.[] = 0
count_words within (String.◌∷◌ c s) =
    let space = is_space (code c) in
    let rest = count_words (not space) s in if space || within then rest else suc rest

unfoldable pub valid_cron : String → Bool
valid_cron e = count_words false e == 5

pub record ScheduleCreate : Type 0 where
  pub database_id : ℕ
  pub cron_expression : String
  pub enabled : Bool

-- `none` is a field that the request does not set, and `some none` one that it sets to null.
pub record ScheduleUpdate : Type 0 where
  pub cron_expression : Option (Option String)
  pub enabled : Option (Option Bool)

abbrev pub has_schedule_id : ℕ → Schedule → Bool
has_schedule_id i s = s.id == i

abbrev pub schedule_ids : Config → List ℕ
schedule_ids c = map (λ (s : Schedule). s.id) c.schedules

abbrev pub set_schedules : List Schedule → Manager → Manager
set_schedules ss m = set_config m (record m.config { schedules = ss })

unfoldable pub create_schedule : ScheduleCreate → Manager → Reply Schedule × Manager
unfolding save_config
create_schedule body m =
    let new : Schedule = record {
      id = next_id (schedule_ids m.config);
      database_id = body.database_id;
      cron_expression = some body.cron_expression;
      enabled = some body.enabled;
      next_run = none;
      last_run = none;
    } in
    if not (is_some (get_database body.database_id m))
    then (http 404, m)
    else if not (valid_cron body.cron_expression)
    then (http 400, m)
    else (ok new, set_schedules (m.config.schedules ++ new ∷ []) m)

-- `ScheduleResponse(**schedule)`, which takes no null here: the server answers 500.
unfoldable pub schedule_response : Schedule → Reply Schedule
schedule_response s = if is_some s.cron_expression && is_some s.enabled then ok s else http 500

-- The first entry with the id is replaced.
unfoldable pub put_schedule : ℕ → Schedule → List Schedule → List Schedule
put_schedule i new [] = []
put_schedule i new (s ∷ ss) =
    let rest = put_schedule i new ss in if s.id == i then new ∷ ss else s ∷ rest

abbrev pub merge_schedule : ScheduleUpdate → Schedule → Schedule
merge_schedule body s = record s {
  cron_expression = or_else body.cron_expression s.cron_expression;
  enabled = or_else body.enabled s.enabled;
}

-- A field that is not set leaves its value; null is stored.
unfoldable pub update_schedule : ℕ → ScheduleUpdate → Manager → Reply Schedule × Manager
unfolding save_config
update_schedule i body m = elim (find (has_schedule_id i) m.config.schedules) [
  | none ↦ (http 404, m)
  | some s ↦
      if not (elim body.cron_expression [ some (some e) ↦ valid_cron e | _ ↦ true ])
      then (http 400, m)
      else (
        schedule_response (merge_schedule body s),
        set_schedules (put_schedule i (merge_schedule body s) m.config.schedules) m,
      )
]

unfoldable pub delete_schedule : ℕ → Manager → Reply (Unit {0}) × Manager
unfolding save_config
delete_schedule i m =
    if not (is_some (find (has_schedule_id i) m.config.schedules))
    then (http 404, m)
    else (ok tt, set_schedules (keep (λ s. not (has_schedule_id i s)) m.config.schedules) m)

unfoldable pub toggle_schedule : ℕ → Manager → Reply Schedule × Manager
unfolding save_config
toggle_schedule i m = elim (find (has_schedule_id i) m.config.schedules) [
  | none ↦ (http 404, m)
  | some s ↦
      let toggled : Schedule = record s { enabled = some (not (or_else s.enabled false)) } in
      (schedule_response toggled, set_schedules (put_schedule i toggled m.config.schedules) m)
]

pub record DatabaseCreate : Type 0 where
  pub name : String
  pub provider : String
  pub params : Json
  pub s3_enabled : Bool
  pub s3_bucket_id : Option ℕ
  pub retention : ℕ
  pub s3_retention : ℕ

abbrev pub valid_providers : List String
valid_providers = "postgres" ∷ "mysql" ∷ "sqlserver" ∷ "mariadb" ∷ "mongodb" ∷ []

abbrev pub new_database : DatabaseCreate → DbConfig
new_database body = record {
  id = 0;
  name = body.name;
  provider = body.provider;
  params = body.params;
  retention = body.retention;
  s3_enabled = body.s3_enabled;
  s3_bucket_id = body.s3_bucket_id;
  s3_retention = body.s3_retention;
  storage_target_ids = [];
}

-- The entry brings no id, `add_database` gives it one.
unfoldable pub create_database : DatabaseCreate → Manager → Reply DbConfig × Manager
create_database body m =
    if not (any (str_eq body.provider) valid_providers)
    then (http 400, m)
    else if body.s3_enabled && not (truthy_id body.s3_bucket_id)
    then (http 400, m)
    else let (i, m') = add_database false (new_database body) m in
      elim (get_database i m') [ none ↦ (http 500, m') | some d ↦ (ok d, m') ]

-- An exception of the crontab is swallowed.
unfoldable pub delete_database :
    (c : Crontab) → ℕ → CronState c × Manager → Reply (Unit {0}) × (CronState c × Manager)
unfolding save_config
delete_database c i (cron, m) =
    if not (is_some (get_database i m)) then (http 404, (cron, m)) else (
      ok tt,
      (
        (remove_job c i cron).1,
        remove_database i (
            set_schedules (keep (λ (s : Schedule). not (s.database_id == i)) m.config.schedules) m),
      ),
    )
