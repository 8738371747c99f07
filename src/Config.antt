-- ===== src/Config.antt =====
-- The database entries and storage targets of config.json: `ConfigManager` of backend/config.py and
-- `StorageManager` of backend/core/storage_manager.py. `disk` is the configuration as the file last
-- got it, before its secrets are encrypted (Secrets); the copy to remote storage is left out.
mod Records
pub use Records.*
pub mod Settings
pub mod Secrets
pub mod Ids
pub mod Dict
pub mod Targets
pub mod Tests
use dbmanager.Base.{
  ℕ, suc, String, Bool, true, false, Option, none, some, List, [], ◌∷◌, ◌++◌, map, ◌&&◌, ◌||◌, not,
  any, find, keep, length, ltb, ◌==◌, max, if◌then◌else◌,
}
use dbmanager.Json.{Json}

unfoldable pub save_config : Manager → Manager
save_config m = record m { disk = m.config }

-- `max(ids) + 1 if ids else 1`
unfoldable pub max_id : List ℕ → ℕ
max_id [] = 0
max_id (i ∷ is) = max i (max_id is)

unfoldable pub next_id : List ℕ → ℕ
unfolding max_id
next_id is = suc (max_id is)

abbrev pub db_ids : Config → List ℕ
db_ids c = map (λ (d : DbConfig). d.id) c.databases

abbrev pub target_ids : Config → List ℕ
target_ids c = map (λ (s : Target). s.id) c.storage_targets

abbrev pub set_config : Manager → Config → Manager
set_config m c = save_config (record m { config = c })

-- `add_database`: `given` says whether the entry brings its own id
unfoldable pub add_database : Bool → DbConfig → Manager → ℕ × Manager
unfolding next_id save_config
add_database given db m =
    let new : DbConfig = if given then db else record db { id = next_id (db_ids m.config) } in
    (new.id, set_config m (record m.config { databases = m.config.databases ++ new ∷ [] }))

unfoldable pub get_database : ℕ → Manager → Option DbConfig
get_database i m = find (λ d. d.id == i) m.config.databases

unfoldable pub remove_database : ℕ → Manager → Manager
unfolding save_config
remove_database i m =
    set_config m (record m.config { databases = keep (λ d. not (d.id == i)) m.config.databases })

-- The loop of `update_database` up to its `return`: the first entry with the id is replaced.
unfoldable pub replace_db : ℕ → DbConfig → List DbConfig → Option (List DbConfig)
replace_db i new [] = none
replace_db i new (d ∷ ds) =
    let rest = replace_db i new ds in
    if d.id == i
    then some (record new { id = i } ∷ ds)
    else elim rest [ none ↦ none | some ds' ↦ some (d ∷ ds') ]

unfoldable pub update_database : ℕ → DbConfig → Manager → Bool × Manager
unfolding replace_db save_config
update_database i new m = elim (replace_db i new m.config.databases) [
  | none ↦ (false, m)
  | some ds ↦ (true, set_config m (record m.config { databases = ds }))
]

-- `_ensure_storage_config`: the legacy buckets become targets if there are none; only then is the
-- configuration saved.
unfoldable pub ensure_storage_config : Manager → Manager
unfolding save_config
ensure_storage_config m = elim m.config.s3_buckets [
  | none ↦ m
  | some buckets ↦
      let popped : Config = record m.config { s3_buckets = none } in
      if ltb 0 (length buckets) && not (ltb 0 (length m.config.storage_targets))
      then set_config m (record popped { storage_targets = buckets })
      else record m { config = popped }
]

unfoldable pub get_storage_config : ℕ → Manager → Option Target
get_storage_config i m = find (λ s. s.id == i) m.config.storage_targets

unfoldable pub get_storage_name : ℕ → Manager → Option String
unfolding get_storage_config
get_storage_name i m = elim (get_storage_config i m) [ none ↦ none | some s ↦ some s.name ]

unfoldable pub add_storage : Target → Manager → ℕ × Manager
unfolding next_id save_config
add_storage target m =
    let i = next_id (target_ids m.config) in
    (
      i,
      set_config m (record m.config {
        storage_targets = m.config.storage_targets ++ record target { id = i } ∷ [];
      }),
    )

unfoldable pub replace_target : ℕ → Target → List Target → Option (List Target)
replace_target i new [] = none
replace_target i new (s ∷ ss) =
    let rest = replace_target i new ss in
    if s.id == i
    then some (record new { id = i } ∷ ss)
    else elim rest [ none ↦ none | some ss' ↦ some (s ∷ ss') ]

unfoldable pub update_storage : ℕ → Target → Manager → Bool × Manager
unfolding replace_target save_config
update_storage i new m = elim (replace_target i new m.config.storage_targets) [
  | none ↦ (false, m)
  | some ss ↦ (true, set_config m (record m.config { storage_targets = ss }))
]

-- `o == i` for an optional id
abbrev pub is_id : ℕ → Option ℕ → Bool
is_id i o = elim o [ none ↦ false | some j ↦ j == i ]

-- `not s3_bucket_id` is the negation of this.
abbrev pub truthy_id : Option ℕ → Bool
truthy_id none = false
truthy_id (some n) = not (n == 0)

unfoldable pub in_use : ℕ → Config → Bool
in_use i c = any (λ d. is_id i d.s3_bucket_id) c.databases || is_id i c.config_sync_bucket_id

unfoldable pub delete_storage : ℕ → Manager → Bool × Manager
unfolding in_use save_config
delete_storage i m =
    let left = keep (λ (s : Target). not (s.id == i)) m.config.storage_targets in
    if in_use i m.config
    then (false, m)
    else if ltb (length left) (length m.config.storage_targets)
    then (true, set_config m (record m.config { storage_targets = left }))
    else (false, record m { config = record m.config { storage_targets = left } })
