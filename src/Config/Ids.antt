-- ===== src/Config/Ids.antt =====
-- Ids of database entries and storage targets: a new one is new, and the look-ups by id.
use dbmanager.Base.{
  is_some, ◌&&◌, ℕ, ◌<◌, ◌≡◌, refl, false, Option-cases, inl, inr, none, some, List, [], ◌∷◌, ◌++◌,
  map, not, find, keep, arith, ◌==◌, if◌then◌else◌,
}
use dbmanager.Config.{
  DbConfig, Manager, max_id, next_id, db_ids, add_database, get_database, remove_database,
  replace_db, update_database,
}

find_db_above :
    (i : ℕ) (ds : List DbConfig)
    → max_id (map (λ (d : DbConfig). d.id) ds) < i
    → find (λ d. d.id == i) ds ≡ none
unfolding max_id
find_db_above i [] h = refl
find_db_above i (d ∷ ds) h = ground (arith, find_db_above i ds)

find_db-append :
    (i : ℕ) (d : DbConfig) (ds : List DbConfig)
    → find (λ d. d.id == i) (ds ++ d ∷ []) ≡ elim (find (λ d. d.id == i) ds) [
      | some x ↦ some x
      | none ↦ if d.id == i then some d else none
    ]
find_db-append i d [] = refl
find_db-append i d (x ∷ ds) = ground (arith, find_db-append i d ds)

-- An entry that brings no id gets one that no entry has; it is found under it, every other look-up
-- is as before, and the file has what the memory has.
pub add_database-new :
    (db : DbConfig) (m : Manager) (i : ℕ)
    → let (new, m') = add_database false db m in
      (get_database new m ≡ none)
      × (get_database i m' ≡ (if new == i then some (record db { id = new }) else get_database i m))
      × (m'.disk ≡ m'.config)
unfolding add_database get_database
add_database-new db m i =
    let above = find_db_above (next_id (db_ids m.config)) m.config.databases in
    (
      above (omega arith),
      ground (
        arith,
        above,
        find_db-append i (record db { id = next_id (db_ids m.config) }) m.config.databases,
      ),
      refl,
    )

find_db-replace :
    (i j : ℕ) (new : DbConfig) (ds ds' : List DbConfig)
    → replace_db i new ds ≡ some ds'
    → find (λ d. d.id == j) ds'
      ≡ (if i == j then some (record new { id = i }) else find (λ d. d.id == j) ds)
unfolding replace_db
find_db-replace i j new [] ds' h = cc
find_db-replace i j new (d ∷ ds) ds' h = elim (Option-cases (replace_db i new ds)) [
  | inl e ↦ ground arith
  | inr (rest, e) ↦ ground (arith, find_db-replace i j new ds rest e)
]

find_db-is_some :
    (i : ℕ) (new : DbConfig) (ds : List DbConfig)
    → is_some (replace_db i new ds) ≡ is_some (find (λ d. d.id == i) ds)
unfolding replace_db
find_db-is_some i new [] = refl
find_db-is_some i new (d ∷ ds) = ground (arith, find_db-is_some i new ds)

-- An update answers `True` exactly when some entry has the id. Then the new entry stands under that
-- id and the other look-ups are as before; else nothing is changed.
pub update_database-finds :
    (i j : ℕ) (new : DbConfig) (m : Manager)
    → let (done, m') = update_database i new m in
      (done ≡ is_some (get_database i m))
      × (get_database j m'
          ≡ (if done && i == j then some (record new { id = i }) else get_database j m))
      × (m' ≡ (if done then m' else m))
unfolding update_database get_database
update_database-finds i j new m =
    let there = find_db-is_some i new m.config.databases in
    elim (Option-cases (replace_db i new m.config.databases)) [
      | inl e ↦ (ground (arith, there), ground arith, ground arith)
      | inr (ds, e) ↦ (
        ground (arith, there),
        ground (arith, find_db-replace i j new m.config.databases ds e),
        ground arith,
      )
    ]

find_db-keep :
    (i j : ℕ) (ds : List DbConfig)
    → find (λ d. d.id == j) (keep (λ d. not (d.id == i)) ds)
      ≡ (if i == j then none else find (λ d. d.id == j) ds)
find_db-keep i j [] = ground arith
find_db-keep i j (d ∷ ds) = ground (arith, find_db-keep i j ds)

-- A removed id is not found, every other look-up is as before, and the file has what the memory has.
pub remove_database-absent :
    (i j : ℕ) (m : Manager)
    → (get_database j (remove_database i m) ≡ (if i == j then none else get_database j m))
      × ((remove_database i m).disk ≡ (remove_database i m).config)
unfolding remove_database get_database
remove_database-absent i j m = (find_db-keep i j m.config.databases, refl)
