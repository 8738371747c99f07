-- ===== src/Endpoints/Tests.antt =====
-- Requests on the configuration of Config/Tests and the targets of Migration/Tests.
use dbmanager.Base.{
  ℕ, String, ◌≡◌, refl, true, false, none, some, List, [], ◌∷◌, is_some, if◌then◌else◌,
}
use dbmanager.Base.Text.{ends_with, add, basename}
use dbmanager.Base.Outcome.{http, ok}
use dbmanager.Storage.{Bytes, Object}
use dbmanager.Backups.{local_backup, local_backups}
use dbmanager.Config.{get_database}
use dbmanager.Config.Tests.{manager}
use dbmanager.Users.Tests.{alice}
use dbmanager.Protect.{read_bytes}
use dbmanager.Tasks.Tests.{dump_work, load_work, halves}
use dbmanager.Migration.Tests.{holding, holding-IsTargets, put}
use dbmanager.Restore.Tests.{tools}
use dbmanager.Endpoints.{
  App, RestoreRequest, start_backup, start_restore, verify_backup, delete_backup,
}
use dbmanager.Endpoints.Paths.{regular, directory, FilePath, Disk, System, is_under, same_path}
use dbmanager.Endpoints.Confined.{delete_backup-confined}
use dbmanager.Endpoints.Refused.{listed_backup-refused}
use dbmanager.Files.{Dir, LocalFile, binary, read, put_file}
use dbmanager.Endpoints.{get_s3_storage}
use dbmanager.Endpoints.Sync.{
  names, upload_file, upload_files, download_file, download_files, has_name, local_names, s3_names,
  prefix_of, sync_backups,
}
use dbmanager.Endpoints.Untouched.{sync_backups-untouched}
use dbmanager.Endpoints.Followed.{Starts, requests-Starts}

-- The second name leads out of the root.
abbrev system : System
system = record {
  resolve = λ f. some ("data" ∷ f ∷ []);
  may_delete = λ p. true;
  backup_root = "data" ∷ [];
}

abbrev password_file : FilePath
password_file = "etc" ∷ "passwd" ∷ []

abbrev disk : Disk
disk p =
    if same_path p ("data" ∷ [])
    then some directory
    else if same_path p ("data" ∷ "shop.sql" ∷ [])
    then some regular
    else if same_path p password_file
    then some regular
    else none

abbrev app : App (holding [])
app = record {
  manager = manager;
  audit = record { is_up = true; entries = [] };
  disk = disk;
  tasks = [];
  queue = [];
  remote = λ i k. none;
}

password_file_outside : is_under system.backup_root password_file ≡ false
unfolding is_under
password_file_outside = refl

root_there : disk system.backup_root ≡ some directory
unfolding same_path
root_there = refl

delete_backup-confined_example :
    (delete_backup (λ t. t) (holding []) system "busy" alice "shop.sql" "local" (some 4) app).1.disk
      password_file
    ≡ disk password_file
delete_backup-confined_example =
    delete_backup-confined system password_file password_file_outside (λ t. t) (holding []) "busy"
      alice "shop.sql" "local" (some 4) app root_there

shop_there : is_some (get_database 4 manager) ≡ true
unfolding get_database
shop_there = refl

listed_backup-refused_example :
    (delete_backup (λ t. t) (holding []) system "busy" alice "shop.sql.enc" "local" (some 4) app
      ≡ (http 400, app))
    × (verify_backup
          (λ t. t)
          (holding [])
          tools
          (λ b. [])
          system
          (λ p d. some true)
          "shop.sql.enc"
          "local"
          (some 4)
          app
        ≡ http 400)
    × (start_restore
          (λ t. t)
          (holding [])
          system
          alice
          "t1"
          9
          4
          (record {
            backup_file = "shop.sql.enc";
            location = "local";
            skip_safety_snapshot = false;
          })
          app
        ≡ (http 400, app))
unfolding ends_with
listed_backup-refused_example =
    listed_backup-refused system "shop.sql.enc" refl (λ t. t) (holding []) tools (λ b. [])
      (λ p d. some true) "busy" "t1" alice (some 4) 9 4 false app shop_there

abbrev request : RestoreRequest
request = record { backup_file = "shop.sql"; location = "local"; skip_safety_snapshot = false }

requests-Starts_example :
    Starts
      (λ t. t)
      (holding [])
      halves
      "timeout"
      10
      dump_work
      load_work
      app
      (start_backup (λ t. t) (holding []) alice "t1" 9 4 app)
    × Starts
        (λ t. t)
        (holding [])
        halves
        "timeout"
        10
        dump_work
        load_work
        app
        (start_restore (λ t. t) (holding []) system alice "t1" 9 4 request app)
requests-Starts_example =
    requests-Starts (λ t. t) (holding []) halves "timeout" 10 dump_work load_work system alice "t1"
      9 4 request app

-- One backup is here and one is there.
abbrev remote : List Object
remote = record { key = "backups/1/a.sql"; size = 1; last_modified = 5 } ∷ []

abbrev stored : String → ℕ → Bytes → LocalFile
stored n t b = record { name = n; mtime = t; size = 1; content = binary b }

abbrev shop_dir : Dir
shop_dir = stored "b.sql" 3 (8 ∷ []) ∷ []

abbrev before_sync : App (holding remote)
before_sync = record {
  manager = manager;
  audit = record { is_up = true; entries = [] };
  disk = disk;
  tasks = [];
  queue = [];
  remote = put 1 "backups/1/a.sql" (some (7 ∷ [])) (λ i k. none);
}

storage_there : get_s3_storage (λ t. t) (holding remote) 4 before_sync ≡ ok 1
unfolding get_s3_storage get_database
storage_there = refl

synced :
    sync_backups (λ t. t) (holding remote) (λ ns. ns) 9 "full" 4 shop_dir before_sync
    ≡ some (
        ok (
          record { uploaded = 1; downloaded = 1; local_only = 1; s3_only = 1 },
          stored "a.sql" 9 (7 ∷ []) ∷ shop_dir,
          put 1 "backups/1/b.sql" (some (8 ∷ [])) before_sync.remote,
        ))
unfolding sync_backups get_s3_storage get_database upload_files names local_backups ends_with
    local_backup basename upload_file read_bytes read download_files download_file add put_file
synced = refl

listed_here : has_name "b.sql" (local_names shop_dir) ≡ true
unfolding names local_backups local_backup ends_with
listed_here = refl

listed_there : has_name "a.sql" (s3_names remote) ≡ true
unfolding names ends_with basename
listed_there = refl

sync_backups-untouched_example :
    (read "b.sql" (stored "a.sql" 9 (7 ∷ []) ∷ shop_dir) ≡ read "b.sql" shop_dir)
    × ((holding remote).download 1
          (add (prefix_of (holding remote) 4) "a.sql")
          (put 1 "backups/1/b.sql" (some (8 ∷ [])) before_sync.remote)
        ≡ (holding remote).download 1
            (add (prefix_of (holding remote) 4) "a.sql")
            before_sync.remote)
sync_backups-untouched_example =
    sync_backups-untouched (λ t. t) (holding remote) (holding-IsTargets remote) (λ ns. ns)
      (λ ns m h. h) 9 4 1 "full" "b.sql" "a.sql" shop_dir (stored "a.sql" 9 (7 ∷ []) ∷ shop_dir)
      before_sync remote (record { uploaded = 1; downloaded = 1; local_only = 1; s3_only = 1 })
      (put 1 "backups/1/b.sql" (some (8 ∷ [])) before_sync.remote) storage_there refl synced
      listed_here listed_there
