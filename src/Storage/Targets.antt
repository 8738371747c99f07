-- ===== src/Storage/Targets.antt =====
-- The storage targets of a configuration by id, each behind the `StorageProvider` that `get_storage` of
-- backend/core/storage_manager.py makes for it.
use dbmanager.Base.{
  ℕ, String, ◌≡◌, Bool, true, false, Option, none, some, List, ◌==◌, str_eq, if◌then◌else◌,
}
use dbmanager.Storage.Interface.{Bytes, Object, Provider}

-- The storage targets by id, with the operations of their providers; `none` is an exception, and
-- `download` answers `some none` for `False`, and the information on a file is the hash in its metadata.
pub record Targets : Type 1 where
  pub World : Type 0
  pub exists : ℕ → World → Bool
  pub list_files : ℕ → String → World → Option (List Object)
  pub download : ℕ → String → World → Option (Option Bytes)
  pub upload : ℕ → Bytes → String → World → Option Bool × World
  pub delete : ℕ → String → World → Option Bool × World
  pub get_file_info : ℕ → String → World → Option (Option (Option String))
  pub str : ℕ → String

-- What the services document: a successful upload is there, a successful deletion takes the file away,
-- and neither touches another target or key, whatever its outcome.
pub record IsTargets (t : Targets) : Type 0 where
  pub download-upload :
      (i : ℕ) (b : Bytes) (k : String) (w : t.World)
      → (t.upload i b k w).0 ≡ some true
      → t.download i k (t.upload i b k w).1 ≡ some (some b)
  pub upload-other :
      (i j : ℕ) (b : Bytes) (k l : String) (w : t.World)
      → (if i == j then str_eq k l else false) ≡ false
      → t.download j l (t.upload i b k w).1 ≡ t.download j l w
  pub download-delete :
      (i : ℕ) (k : String) (w : t.World)
      → (t.delete i k w).0 ≡ some true
      → t.download i k (t.delete i k w).1 ≡ some none
  pub delete-other :
      (i j : ℕ) (k l : String) (w : t.World)
      → (if i == j then str_eq k l else false) ≡ false
      → t.download j l (t.delete i k w).1 ≡ t.download j l w

-- One of the targets, as a provider.
abbrev pub provider_of : (t : Targets) → ℕ → Provider
provider_of t i = record {
  Store = t.World;
  list_files = t.list_files i;
  delete_file = t.delete i;
  upload_file = t.upload i;
  download_file = t.download i;
  get_file_info = t.get_file_info i;
}
