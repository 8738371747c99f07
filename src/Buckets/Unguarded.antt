-- ===== src/Buckets/Unguarded.antt =====
-- The deletion of a storage target that is in use.
use dbmanager.Base.{ℕ, ◌≡◌, refl, true, false, none, List, [], ◌∷◌, any, find, is_some, arith, ◌==◌}
use dbmanager.Base.Outcome.{ok}
use dbmanager.Config.{
  Target, Manager, in_use, get_storage_config, save_config, delete_storage as delete_unused,
}
use dbmanager.Config.Targets.{find_target-keep}
use dbmanager.Buckets.{delete_storage}

any-find :
    (i : ℕ) (ts : List Target)
    → any (λ (t : Target). t.id == i) ts ≡ is_some (find (λ (t : Target). t.id == i) ts)
any-find i [] = refl
any-find i (t ∷ ts) = ground (arith, any-find i ts)

-- A target that the configuration uses, as the bucket of a database or for its own synchronisation, is
-- deleted by a request all the same and not found any more, in memory and in the file, where the storage
-- manager refuses to delete it and changes nothing.
pub delete_storage-unguarded :
    (i : ℕ) (m : Manager)
    → is_some (get_storage_config i m) ≡ true
    → in_use i m.config ≡ true
    → ((delete_storage i m).0 ≡ ok tt)
      × (get_storage_config i (delete_storage i m).1 ≡ none)
      × ((delete_storage i m).1.disk ≡ (delete_storage i m).1.config)
      × (in_use i (delete_storage i m).1.config ≡ true)
      × (delete_unused i m ≡ (false, m))
unfolding delete_storage get_storage_config delete_unused in_use save_config
delete_storage-unguarded i m there used =
    ground
      (arith, any-find i m.config.storage_targets, find_target-keep i i m.config.storage_targets)
