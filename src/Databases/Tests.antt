-- ===== src/Databases/Tests.antt =====
-- A change of the host of a database, with its name set to null.
use dbmanager.Base.{◌≡◌, refl, none, some, [], ◌∷◌}
use dbmanager.Json.{str, num, dict, Fields, end, field}
use dbmanager.Databases.{Entry, Store, DatabaseUpdate, dict_get, find_entry, update_database}
use dbmanager.Databases.Merged.{IsUpdate, update_database-merges}

abbrev old_params : Fields
old_params = field "host" (str "db1") (field "password" (str "secret") end)

abbrev stored : Entry
stored = record {
  id = 4;
  fields = field "name" (str "shop") (
      field "provider" (str "mysql")
        (field "params" (dict old_params) (field "retention" (num 3) end)));
}

abbrev shops : Store
shops = record { databases = stored ∷ []; disk = stored ∷ [] }

abbrev new_host : DatabaseUpdate
new_host = record {
  name = some none;
  provider = some (some "mysql");
  params = some (some (field "host" (str "db2") end));
  s3_enabled = none;
  s3_bucket_id = none;
  retention = some (some 7);
  s3_retention = none;
}

stored_there : find_entry 4 shops.databases ≡ some stored
unfolding find_entry
stored_there = refl

update_database-merges_example :
    IsUpdate 4 4 "retention" "host" new_host stored shops (update_database 4 new_host shops)
unfolding dict_get
update_database-merges_example =
    update_database-merges 4 4 "retention" "host" new_host stored shops stored_there old_params refl
      refl
