-- ===== src/Storage/Interface.antt =====
-- `StorageProvider` of backend/core/storage_provider.py. What S3 and SMB servers do is outside the
-- program: the operations are those of a record over a type of stores, and `none` is an
-- exception. The information on a file is the hash in its metadata; the metadata that an upload
-- brings along is left out.
use dbmanager.Base.{ℕ, String, Bool, Option, List}

abbrev pub Bytes : Type 0
Bytes = List ℕ

pub record Object : Type 0 where
  pub key : String
  pub size : ℕ
  pub last_modified : ℕ

pub record Provider : Type 1 where
  pub Store : Type 0
  pub list_files : String → Store → Option (List Object)
  pub delete_file : String → Store → Option Bool × Store
  pub upload_file : Bytes → String → Store → Option Bool × Store
  pub download_file : String → Store → Option (Option Bytes)
  pub get_file_info : String → Store → Option (Option (Option String))
