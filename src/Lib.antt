-- ===== src/Lib.antt =====
-- dbmanager: a service that backs up, restores and administers databases, with a web API, users with
-- roles, and a configuration file. This library models its core in backend/.
--
-- The parts and how they interact:
-- A request comes in with a token. `get_current_user` and `require_role` of backend/api/deps.py find
-- the row of its user; the handlers of backend/api/routers/users.py and the login handler of
-- backend/api/routers/auth.py change that table, and each of them writes to the audit log.
-- `DBManager` of backend/core/manager.py makes backups of the databases that the configuration
-- names, lists them, deletes old ones and restores them; it uses the checksum, compression and
-- encryption functions of its neighbours and the storage targets of the configuration.
--
-- Files:
-- - Base, Base/Lists, Base/Text, Base/Suffix, Base/Sort, Base/Outcome: Boolean tests, lists, texts,
--   `Path.suffix` and `Path.stem`, `sorted(..., reverse=True)`, and the reply of a handler.
-- - Json: the untyped values of details and parameters.
-- - Audit: backend/core/audit.py (`_sanitize_details`, `record_audit`). `AuditLog.is_up` says whether
--   the database takes a write.
-- - Users, Users/Admin: backend/db/models/user.py, backend/db/repositories/users_repo.py and the
--   handlers of backend/api/routers/users.py, under their names. `World` is the database: its rows
--   and the audit log. A handler takes the row of the current user and returns its reply, `ok` or
--   the code of the `HTTPException`, and the database it leaves.
-- - Session: backend/api/deps.py.
-- - Login, Login/Rate: backend/api/routers/auth.py and `AuthManager.authenticate` of
--   backend/core/auth.py. `State` is the limiter's three dicts and the database; `run` is a
--   sequence of logins.
-- - Config: `ConfigManager` of backend/config.py and `StorageManager` of
--   backend/core/storage_manager.py; `Manager` has the configuration in memory and on disk.
-- - Config/Dict: sequences of changes of the entries of databases. Users/Sequence: sequences of requests
--   to backend/api/routers/users.py.
-- - Storage, Storage/Targets: the interface of backend/core/storage_provider.py, and the targets by id
--   that `get_storage` of backend/core/storage_manager.py gives.
-- - Files: a directory of files, with the reading, deletion and renaming that the program uses.
-- - Encryption: the file layout of backend/core/encryption.py.
-- - Backups: `list_backups`, `_enforce_retention` and `_enforce_s3_retention` of
--   backend/core/manager.py.
-- - Protect: the stages of `backup_database` of backend/core/manager.py on the local file, with
--   backend/core/backup_utils.py and backend/core/compression.py.
-- - Upload: the whole of `backup_database` of backend/core/manager.py, with its uploads to the storage
--   targets and both retentions after them.
-- - Restore: `restore_database` of backend/core/manager.py.
-- - Progress: `BackupProgress` of backend/core/progress.py.
-- - Tasks: `TaskManager` of backend/api/task_manager.py, and `run_backup_task` and
--   `run_restore_task` of backend/api/routers/backups.py. What the work reports is a list of calls on
--   its tracker, each with its time; the callback carries every one over to the table.
-- - Config/Records, Config/Settings: config.json as a record, its settings and the backup metadata.
-- - Config/Secrets: `SecurityManager` of backend/core/security.py and `_process_config` of
--   backend/config.py, on an untyped value.
-- - Uptime: backend/core/uptime_monitor.py and the history of backend/config.py.
-- - Schedules, Schedules/Cron: backend/api/routers/schedules.py, `CronManager` of
--   backend/core/cron.py, and the creation and deletion of a database of
--   backend/api/routers/databases.py. Databases: its listing and update,
--   on entries that are untyped dicts, since an update can store null under a key; the other
--   modules have the entries as records without such nulls.
-- - Integrity: `verify_backup` of backend/core/backup_utils.py and the local branch of
--   `verify_backup_integrity` of backend/core/manager.py. Integrity/Remote: its branch for targets.
-- - Endpoints, Endpoints/Paths, Endpoints/Listing, Endpoints/Sync: backend/api/routers/backups.py. `App`
--   is the state that its handlers share; the queue holds the background tasks, which run after the
--   reply. Paths has `_resolve_local_backup` and the deletion of a file, on a file system that is a
--   function of the path.
-- - ConfigSync: backend/core/config_sync.py. `State` has the configuration in memory, config.json with
--   its copies, proxy.json and the targets.
-- - Buckets: backend/api/routers/s3_buckets.py and backend/api/models/storage.py.
-- - Settings: backend/api/routers/settings.py.
-- - Docker: backend/core/docker_safety.py.
-- - Migration: backend/core/storage_migrator.py.
-- - Proxy, Proxy/Caddyfile: the validation of backend/proxy/config.py and the text that
--   backend/proxy/caddyfile_gen.py renders. A regular expression is a function on the text. Of the
--   configuration there are the fields that the text is made of.
-- - Query: backend/api/routers/query.py and `execute_query` of backend/core/manager.py.
--
-- Numbers: all are natural numbers of any size, as Python's are, but for the limit of a query, which is
-- an integer; times are numbers of nanoseconds or
-- seconds. Loops are recursion on lists, so there is no fuel; the one recursive call of
-- `restore_database` passes `create_safety_snapshot=False` and so is a function of its own,
-- `restore_unsafe`.
--
-- Each component's theorems stand in the files below it, named for what they prove, and its examples
-- in a file Tests.
--
-- Parameters: hashes, codecs, AES-GCM, the signing and decoding of tokens, password hashing, the
-- database drivers, the storage services, and the ids that the database assigns. What is asked of
-- them is in the records `IsAead` (Encryption), `IsSound` (Restore/Roundtrip), `Assigns`
-- (Users/Invariant), `IsFernet` (Config/Secrets), `IsCrontab` (Schedules/Cron), `IsTargets`
-- (Storage/Targets), `Accepts` (Upload/Kept) and `IsFull` (Integrity/Protected). The parser of SQL is
-- a parameter of Query, of which nothing is asked, and so is the server behind the drivers, whose
-- `fetchmany` takes an integer (`IsDriver` in Query/Limits is about positive ones). The
-- resolution of paths and what may be deleted is `System` (Endpoints/Paths), and JSON and the naive
-- times of files are in `Platform` (ConfigSync).
--
-- Not modelled: the metadata that goes with an upload, logging, cookies, the time floor of a failed
-- login, concurrent requests, the command line, the sending of notifications, and the control of the
-- proxy's container. Config keeps the secrets of a configuration as they are; what the file has of
-- them is in Config/Secrets. `write` in Protect gives a file the size 0, which nothing reads:
-- `verify_backup` takes the length of its bytes.
pub mod Base
pub mod Json
pub mod Audit
pub mod Users
pub mod Session
pub mod Login
pub mod Storage
pub mod Config
pub mod Files
pub mod Encryption
pub mod Backups
pub mod Protect
pub mod Restore
pub mod Progress
pub mod Tasks
pub mod Uptime
pub mod Schedules
pub mod Query
pub mod Integrity
pub mod Migration
pub mod Proxy
pub mod Upload
pub mod Endpoints
pub mod ConfigSync
pub mod Docker
pub mod Buckets
pub mod Settings
pub mod Databases
