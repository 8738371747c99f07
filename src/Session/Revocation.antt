-- ===== src/Session/Revocation.antt =====
-- A password reset, a deactivation and a deletion end the sessions of the user that they name.
use dbmanager.Base.{
  ◌+◌, ◌≡◌, ◌≢◌, refl, true, false, Option-cases, inl, inr, none, some, arith, find,
}
use dbmanager.Base.Outcome.{ok, http}
use dbmanager.Users.{User, World, has_id, get_user_by_id, get_user_by_username, put_user}
use dbmanager.Users.Table.{find-name_id, find-name-put_self, find-name-remove_self}
use dbmanager.Users.Invariant.{IsValid}
use dbmanager.Users.Admin.{
  Services, PasswordReset, UserUpdate, reset_user_password, reset_row, update_user, delete_user,
  set_active, new_role,
}
use dbmanager.Session.{Request, Tokens, right_version, check_user, check_payload, get_current_user}
use dbmanager.Session.Access.{IsAuthentic, get_current_user-IsAuthentic}

module _ (t : Tokens) (r : Request) where
  -- The row that the token names has another version, or is inactive.
  refused_row :
      (w w' : World) (v v' : User)
      → (a : IsAuthentic t r w v) → get_user_by_username a.name w'.users ≡ some v'
      → v'.token_version ≢ v.token_version
      → get_current_user t r w' ≡ http 401
  unfolding get_current_user check_payload check_user right_version
  refused_row w w' v v' a e d =
      rw (a.no_csrf, a.sent, a.decoded, check_payload, a.subject, e) (ground (arith, a.version))

  absent_row :
      (w w' : World) (v : User) (a : IsAuthentic t r w v)
      → get_user_by_username a.name w'.users ≡ none
      → get_current_user t r w' ≡ http 401
  unfolding get_current_user check_payload
  absent_row w w' v a e = rw (a.no_csrf, a.sent, a.decoded, check_payload, a.subject, e) refl

  stale_row :
      (w w' : World) (v v' : User)
      → IsValid w.users
      → get_current_user t r w ≡ ok v
      → v'.id ≡ v.id
      → v'.username ≡ v.username
      → v'.token_version ≢ v.token_version
      → w'.users ≡ put_user v' w.users
      → get_current_user t r w' ≡ http 401
  unfolding get_user_by_username
  stale_row w w' v v' k h i n d e =
      let a = (get_current_user-IsAuthentic t r w v).0 h in
      refused_row w w' v v' a (rw e (find-name-put_self a.name v' v w.users k.ids a.in_table i n)) d

  -- The row that a request is attributed to is the row of its id.
  attributed_row :
      (w : World) (v : User)
      → IsValid w.users
      → get_current_user t r w ≡ ok v
      → find (has_id v.id) w.users ≡ some v
  unfolding get_user_by_username
  attributed_row w v k h =
      let a = (get_current_user-IsAuthentic t r w v).0 h in
      find-name_id a.name w.users k.ids a.in_table

  -- In a valid table, a request that is attributed to a user is refused with 401 after a successful
  -- reset of that user's password by an admin.
  pub reset-revokes :
      (s : Services) (body : PasswordReset) (current v : User) (w : World)
      → IsValid w.users
      → get_current_user t r w ≡ ok v
      → (reset_user_password s v.id body current w).0 ≡ ok tt
      → get_current_user t r (reset_user_password s v.id body current w).1 ≡ http 401
  unfolding reset_user_password reset_row get_user_by_id
  reset-revokes s body current v w k h done =
      stale_row w (reset_user_password s v.id body current w).1 v
        (reset_row s body.new_password v current) k h refl refl (omega arith)
        (ground (arith, attributed_row w v k h))

  -- What a successful deactivation of an active row leaves.
  deactivated_row :
      (s : Services) (body : UserUpdate) (current v v' : User) (w : World)
      → find (has_id v.id) w.users ≡ some v
      → v.is_active ≡ true
      → body.is_active ≡ some false
      → (update_user s v.id body current w).0 ≡ ok v'
      → (v'.id ≡ v.id)
        × (v'.username ≡ v.username)
        × (v'.token_version ≡ v.token_version + 1)
        × ((update_user s v.id body current w).1.users ≡ put_user v' w.users)
  unfolding update_user set_active get_user_by_id
  deactivated_row s body current v v' w e a off done =
      elim (Option-cases (new_role s body.role v)) [
        | inl n ↦ absurd (ground arith)
        | inr (role, n) ↦ ground arith
      ]

  -- In a valid table, a request that is attributed to a user is refused with 401 after an update
  -- that deactivates that user and answers with the row.
  pub deactivation-revokes :
      (s : Services) (body : UserUpdate) (current v v' : User) (w : World)
      → IsValid w.users
      → get_current_user t r w ≡ ok v
      → body.is_active ≡ some false
      → (update_user s v.id body current w).0 ≡ ok v'
      → get_current_user t r (update_user s v.id body current w).1 ≡ http 401
  deactivation-revokes s body current v v' w k h off done =
      let active = ((get_current_user-IsAuthentic t r w v).0 h).active in
      let (i, n, tv, e) =
        deactivated_row s body current v v' w (attributed_row w v k h) active off done in
      stale_row w (update_user s v.id body current w).1 v v' k h i n (omega arith) e

  -- In a valid table, a request that is attributed to a user is refused with 401 after a successful
  -- deletion of that user.
  pub delete-revokes :
      (s : Services) (current v : User) (w : World)
      → IsValid w.users
      → get_current_user t r w ≡ ok v
      → (delete_user s v.id current w).0 ≡ ok tt
      → get_current_user t r (delete_user s v.id current w).1 ≡ http 401
  unfolding delete_user get_user_by_id get_user_by_username
  delete-revokes s current v w k h done =
      let a = (get_current_user-IsAuthentic t r w v).0 h in
      absent_row w (delete_user s v.id current w).1 v a (
        ground (
          arith,
          attributed_row w v k h,
          find-name-remove_self a.name v w.users k.names a.in_table,
        ))
