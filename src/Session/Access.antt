-- ===== src/Session/Access.antt =====
-- What a request that passes the two dependencies has shown.
use dbmanager.Base.{
  String, ◌≡◌, true, false, Bool-cases, Option-cases, inl, inr, some, ◌||◌, ◌↔◌, not, arith,
}
use dbmanager.Base.Outcome.{ok}
use dbmanager.Users.{User, World, get_user_by_username}
use dbmanager.Session.{
  Request, Payload, Tokens, truthy, first_truthy, right_version, csrf_refused, pw_change_allowed,
  check_user, check_payload, get_current_user,
}

-- The facts behind an accepted request.
pub record IsAuthentic (t : Tokens) (r : Request) (w : World) (u : User) : Type 0 where
  pub token : String
  pub payload : Payload
  pub name : String
  pub no_csrf : csrf_refused t r ≡ false
  pub sent : first_truthy r.bearer r.cookie ≡ some token
  pub decoded : t.decode_token token ≡ some payload
  pub subject : truthy payload.sub ≡ some name
  pub in_table : get_user_by_username name w.users ≡ some u
  pub active : u.is_active ≡ true
  pub version : payload.tv ≡ some u.token_version
  pub password_current : (not u.must_change_password || pw_change_allowed r.path) ≡ true

module _ (t : Tokens) (r : Request) where
  check_user-ok :
      (p : Payload) (v u : User)
      → check_user t r p v ≡ ok u
      → (v ≡ u)
        × (v.is_active ≡ true)
        × (p.tv ≡ some v.token_version)
        × ((not v.must_change_password || pw_change_allowed r.path) ≡ true)
  unfolding check_user right_version
  check_user-ok p v u h = ground arith

  payload_accepted :
      (token : String) (p : Payload) (w : World) (u : User)
      → csrf_refused t r ≡ false
      → first_truthy r.bearer r.cookie ≡ some token
      → t.decode_token token ≡ some p
      → check_payload t r p w ≡ ok u
      → IsAuthentic t r w u
  unfolding check_payload
  payload_accepted token p w u c s d h = elim (Option-cases (truthy p.sub)) [
    | inl e ↦ absurd (ground arith)
    | inr (name, e) ↦ elim (Option-cases (get_user_by_username name w.users)) [
      | inl g ↦ absurd (ground arith)
      | inr (v, g) ↦
          let facts = check_user-ok p v u (ground arith) in
          record {
            token = token;
            payload = p;
            name = name;
            no_csrf = c;
            sent = s;
            decoded = d;
            subject = e;
            in_table = ground (arith, facts);
            active = ground (arith, facts);
            version = ground (arith, facts);
            password_current = ground (arith, facts);
          }
    ]
  ]

  accepted : (w : World) (u : User) → get_current_user t r w ≡ ok u → IsAuthentic t r w u
  unfolding get_current_user
  accepted w u h = elim (Bool-cases (csrf_refused t r)) [
    | inl c ↦ absurd (ground arith)
    | inr c ↦ elim (Option-cases (first_truthy r.bearer r.cookie)) [
      | inl s ↦ absurd (ground arith)
      | inr (token, s) ↦ elim (Option-cases (t.decode_token token)) [
        | inl d ↦ absurd (ground arith)
        | inr (p, d) ↦ payload_accepted token p w u c s d (ground arith)
      ]
    ]
  ]

  accepts : (w : World) (u : User) → IsAuthentic t r w u → get_current_user t r w ≡ ok u
  unfolding get_current_user check_payload check_user right_version
  accepts w u a =
      rw (a.no_csrf, a.sent, a.decoded, check_payload, a.subject, a.in_table)
        (ground (arith, a.active, a.version, a.password_current))

  -- A request is attributed to a user exactly when it carries a token that decodes to a subject
  -- and a version, the subject names an active row with that version, the request is not a
  -- state-changing one on the cookie alone without the header, and no password change is due, or
  -- the path is one of the three that stay reachable.
  pub get_current_user-IsAuthentic :
      (w : World) (u : User) → (get_current_user t r w ≡ ok u) ↔ IsAuthentic t r w u
  get_current_user-IsAuthentic w u = (accepted w u, accepts w u)
