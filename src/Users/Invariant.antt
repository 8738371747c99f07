-- ===== src/Users/Invariant.antt =====
-- The invariant of the `users` table, and that every administration handler keeps it.
use dbmanager.Base.{
  ℕ, ◌≤◌, ◌≡◌, refl, Bool, true, false, Bool-cases, Option-cases, inl, inr, ◌⊎◌, Option, none, some,
  List, ◌∷◌, [], ◌++◌, ◌&&◌, leb, is_some, arith, find, count-append,
}
use dbmanager.Users.{
  Role, User, World, has_id, has_name, is_active_admin, get_user_by_id, get_user_by_username,
  count_active_admins, put_user, remove_user, valid_role,
}
use dbmanager.Users.Table.{
  UniqueIds, UniqueNames, find-id, count-put, count-remove, put-UniqueIds, put-UniqueNames,
  append-UniqueIds, append-UniqueNames, remove-UniqueIds, remove-UniqueNames,
}
use dbmanager.Users.Admin.{
  UserCreate, UserUpdate, PasswordReset, Services, create_new_user, create_user, update_user,
  drops_admin, set_active, new_role, reset_row, reset_user_password, delete_user,
}

-- Ids and names are unique, and there is an active admin.
pub record IsValid (us : List User) : Type 0 where
  pub ids : UniqueIds us
  pub names : UniqueNames us
  pub an_admin : 1 ≤ count_active_admins us

-- The ids that the database assigns are new ones.
pub record Assigns (s : Services) : Type 0 where
  pub is_new : (us : List User) → find (has_id (s.next_id us)) us ≡ none

-- A row that replaces its old version keeps the table valid, if another admin is left or it still
-- is an active admin where the old version was one.
pub put-IsValid :
    (u v : User) (us : List User)
    → IsValid us
    → find (has_id u.id) us ≡ some v
    → v.username ≡ u.username
    → (2 ≤ count_active_admins us) ⊎ (is_active_admin v ≡ true → is_active_admin u ≡ true)
    → IsValid (put_user u us)
unfolding count_active_admins
put-IsValid u v us h e s other = record {
  ids = put-UniqueIds u us h.ids;
  names = put-UniqueNames u v us e s h.names;
  an_admin = ground (arith, count-put is_active_admin u v us e, h.an_admin);
}

remove-IsValid :
    (v : User) (us : List User)
    → IsValid us
    → find (has_id v.id) us ≡ some v
    → (2 ≤ count_active_admins us) ⊎ (is_active_admin v ≡ false)
    → IsValid (remove_user v.id us)
unfolding count_active_admins
remove-IsValid v us h e other = record {
  ids = remove-UniqueIds v.id us h.ids;
  names = remove-UniqueNames v.id us h.names;
  an_admin = ground (arith, count-remove is_active_admin v.id v us h.ids e, h.an_admin);
}

append-IsValid :
    (u : User) (us : List User)
    → IsValid us
    → find (has_id u.id) us ≡ none
    → find (has_name u.username) us ≡ none
    → IsValid (us ++ u ∷ [])
unfolding count_active_admins
append-IsValid u us h i n = record {
  ids = append-UniqueIds us u h.ids i;
  names = append-UniqueNames us u h.names n;
  an_admin = omega (arith, count-append {0} is_active_admin us (u ∷ []), h.an_admin);
}

-- The new row of an update is an active admin where the old one was, if the guard on the last
-- admin does not fire.
keeps_admin :
    (s : Services) (body : UserUpdate) (v : User) (r : Role)
    → drops_admin s body v ≡ false
    → new_role s body.role v ≡ some r
    → is_active_admin v ≡ true
    → is_active_admin (set_active s body.is_active (record v { role = r })) ≡ true
unfolding drops_admin new_role set_active
keeps_admin s body v r d n a = ground arith

set_active-id :
    (s : Services) (b : Option Bool) (u : User)
    → ((set_active s b u).id ≡ u.id) × ((set_active s b u).username ≡ u.username)
unfolding set_active
set_active-id s none u = (refl, refl)
set_active-id s (some b) u = (refl, refl)

module _ (s : Services) where
  created-IsValid :
      Assigns s
      → (body : UserCreate) (us : List User) (r : Role) → IsValid us
      → is_some (get_user_by_username body.username us) ≡ false
      → IsValid (us ++ create_user s body.username (s.hash body.password) r us ∷ [])
  unfolding create_user get_user_by_username
  created-IsValid a body us r h k =
      append-IsValid (create_user s body.username (s.hash body.password) r us) us h (a.is_new us)
        (ground arith)

  -- Whatever `create_new_user` answers, it leaves a valid table valid, if the database gives new rows
  -- new ids.
  pub create-IsValid :
      Assigns s
      → (body : UserCreate) (current : User) (w : World) → IsValid w.users
      → IsValid (create_new_user s body current w).1.users
  unfolding create_new_user
  create-IsValid a body current w h = elim (Option-cases (valid_role body.role)) [
    | inl e ↦ ground arith
    | inr (r, e) ↦ ground (arith, created-IsValid a body w.users r h)
  ]

  -- The row of an update that passed the guards.
  updated-IsValid :
      (body : UserUpdate) (v : User) (us : List User) (r : Role)
      → IsValid us
      → find (has_id v.id) us ≡ some v
      → (drops_admin s body v && leb (count_active_admins us) 1) ≡ false
      → new_role s body.role v ≡ some r
      → IsValid (put_user (set_active s body.is_active (record v { role = r })) us)
  updated-IsValid body v us r h e g n =
      let v' : User = record v { role = r } in
      let ids = set_active-id s body.is_active v' in
      put-IsValid (set_active s body.is_active v') v us h (ground (arith, ids))
        (ground (arith, ids))
        (elim (Bool-cases (drops_admin s body v)) [
          | inl yes_drops ↦ inl (ground arith)
          | inr keeps ↦ inr (keeps_admin s body v r keeps n)
        ])

  -- Whatever `update_user` answers, it leaves a valid table valid: its ids and names stay unique, and
  -- there still is an active admin.
  pub update-IsValid :
      (user_id : ℕ) (body : UserUpdate) (current : User) (w : World)
      → IsValid w.users
      → IsValid (update_user s user_id body current w).1.users
  unfolding update_user get_user_by_id
  update-IsValid user_id body current w h = elim (Option-cases (find (has_id user_id) w.users)) [
    | inl e ↦ ground arith
    | inr (v, e) ↦ elim (Option-cases (new_role s body.role v)) [
      | inl n ↦ ground arith
      | inr (r, n) ↦ ground (arith, updated-IsValid body v w.users r h, find-id user_id w.users e)
    ]
  ]

  -- Whatever `reset_user_password` answers, it leaves a valid table valid: its ids and names stay
  -- unique, and there still is an active admin.
  pub reset-IsValid :
      (user_id : ℕ) (body : PasswordReset) (current : User) (w : World)
      → IsValid w.users
      → IsValid (reset_user_password s user_id body current w).1.users
  unfolding reset_user_password get_user_by_id
  reset-IsValid user_id body current w h = elim (Option-cases (find (has_id user_id) w.users)) [
    | inl e ↦ ground arith
    | inr (v, e) ↦ ground (
      arith,
      put-IsValid (reset_row s body.new_password v current) v w.users h,
      find-id user_id w.users e,
    )
  ]

  -- Whatever `delete_user` answers, it leaves a valid table valid: its ids and names stay unique, and
  -- there still is an active admin.
  pub delete-IsValid :
      (user_id : ℕ) (current : User) (w : World)
      → IsValid w.users
      → IsValid (delete_user s user_id current w).1.users
  unfolding delete_user get_user_by_id
  delete-IsValid user_id current w h = elim (Option-cases (find (has_id user_id) w.users)) [
    | inl e ↦ ground arith
    | inr (v, e) ↦ ground (arith, remove-IsValid v w.users h, find-id user_id w.users e)
  ]
