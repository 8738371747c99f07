-- ===== src/Config/Dict.antt =====
-- The database entries as a dict by id, which `ConfigManager` of backend/config.py implements by a
-- list.
use dbmanager.Base.{
  is_some, ℕ, ◌≡◌, refl, false, Option, none, some, List, [], ◌∷◌, ◌&&◌, ◌==◌, if◌then◌else◌,
}
use dbmanager.Config.{
  DbConfig, Manager, add_database, get_database, remove_database, update_database,
}
use dbmanager.Config.Ids.{add_database-new, update_database-finds, remove_database-absent}

-- The calls that change the entries.
pub data Op : Type 0 where
  adding : DbConfig → Op
  changing : ℕ → DbConfig → Op
  removing : ℕ → Op

unfoldable pub apply_op : Op → Manager → Manager
apply_op (adding db) m = (add_database false db m).1
apply_op (changing i new) m = (update_database i new m).1
apply_op (removing i) m = remove_database i m

unfoldable pub apply_all : List Op → Manager → Manager
apply_all [] m = m
apply_all (o ∷ os) m = apply_all os (apply_op o m)

abbrev pub Dict : Type 0
Dict = ℕ → Option DbConfig

abbrev pub view : Manager → Dict
view m i = get_database i m

-- What a call does to the dict: an addition uses an id that is free, a change of an id that is not
-- there does nothing.
abbrev pub Step : Op → Dict → Dict → Type 0
Step (adding db) v v' =
    (i : ℕ) × (v i ≡ none)
    × ((j : ℕ) → v' j ≡ (if i == j then some (record db { id = i }) else v j))
Step (changing i new) v v' =
    (j : ℕ) → v' j ≡ (if is_some (v i) && i == j then some (record new { id = i }) else v j)
Step (removing i) v v' = (j : ℕ) → v' j ≡ (if i == j then none else v j)

abbrev pub Steps : List Op → Dict → Dict → Type 0
Steps [] v v' = (j : ℕ) → v' j ≡ v j
Steps (o ∷ os) v v' = (u : Dict) × Step o v u × Steps os u v'

apply_op-Step : (o : Op) (m : Manager) → Step o (view m) (view (apply_op o m))
unfolding apply_op
apply_op-Step (adding db) m =
    ((add_database false db m).0, (add_database-new db m 0).0, λ j. (add_database-new db m j).1)
apply_op-Step (changing i new) m = λ j. let (e, f, g) = update_database-finds i j new m in rw e at f
apply_op-Step (removing i) m = λ j. (remove_database-absent i j m).0

-- Additions, changes and removals of databases in any order do to the look-ups by id what they do to
-- a dict: an added entry gets an id that no entry has, a change or a removal concerns the entry of its
-- id alone, and a change of an id that is not there does nothing.
pub apply_all-Steps : (os : List Op) (m : Manager) → Steps os (view m) (view (apply_all os m))
unfolding apply_all
apply_all-Steps [] m = λ j. refl
apply_all-Steps (o ∷ os) m =
    (view (apply_op o m), apply_op-Step o m, apply_all-Steps os (apply_op o m))
