-- ===== src/Users/Sequence.antt =====
-- The user handlers of backend/api/routers/users.py, one after another.
use dbmanager.Base.{ℕ, List, [], ◌∷◌}
use dbmanager.Users.{User, World}
use dbmanager.Users.Admin.{
  UserCreate, UserUpdate, PasswordReset, Services, create_new_user, update_user,
  reset_user_password, delete_user,
}
use dbmanager.Users.Invariant.{
  IsValid, Assigns, create-IsValid, update-IsValid, reset-IsValid, delete-IsValid,
}

-- The handlers that change the table, with the row of the user who calls.
pub data Request : Type 0 where
  creating : UserCreate → User → Request
  updating : ℕ → UserUpdate → User → Request
  resetting : ℕ → PasswordReset → User → Request
  deleting : ℕ → User → Request

module _ (s : Services) where
  unfoldable pub handle : Request → World → World
  handle (creating body current) w = (create_new_user s body current w).1
  handle (updating i body current) w = (update_user s i body current w).1
  handle (resetting i body current) w = (reset_user_password s i body current w).1
  handle (deleting i current) w = (delete_user s i current w).1

  unfoldable pub handle_all : List Request → World → World
  handle_all [] w = w
  handle_all (r ∷ rs) w = handle_all rs (handle r w)

  handle-IsValid :
      Assigns s → (r : Request) (w : World) → IsValid w.users → IsValid (handle r w).users
  unfolding handle
  handle-IsValid a (creating body current) w h = create-IsValid s a body current w h
  handle-IsValid a (updating i body current) w h = update-IsValid s i body current w h
  handle-IsValid a (resetting i body current) w h = reset-IsValid s i body current w h
  handle-IsValid a (deleting i current) w h = delete-IsValid s i current w h

  -- Whatever requests to create, update, reset or delete users follow one another, and whatever they
  -- are answered, a valid table stays valid: its ids and names are unique, and there is an active
  -- admin. The database gives new rows new ids.
  pub requests-IsValid :
      Assigns s
      → (rs : List Request) (w : World) → IsValid w.users
      → IsValid (handle_all rs w).users
  unfolding handle_all
  requests-IsValid a [] w h = h
  requests-IsValid a (r ∷ rs) w h = requests-IsValid a rs (handle r w) (handle-IsValid a r w h)
