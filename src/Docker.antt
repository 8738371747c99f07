-- ===== src/Docker.antt =====
-- backend/core/docker_safety.py: which names of containers a database may give. The normal form of a
-- name, `strip` and `lower`, is the standard library's.
use dbmanager.Base.{
  String, Bool, true, false, List, [], ◌∷◌, any, str_eq, text_is_empty, if◌then◌else◌,
}

abbrev pub reserved_container_names : List String
reserved_container_names =
    "dbmanager-backend" ∷ "dbmanager-caddy" ∷ "dbmanager-frontend" ∷ "dbmanager-docker-proxy"
    ∷ "backend" ∷ "caddy" ∷ "frontend" ∷ "docker-proxy" ∷ []

-- `true` where `assert_target_is_user_db` raises no exception. The first argument is
-- `name.strip().lower()`.
unfoldable pub assert_target_is_user_db : (String → String) → String → Bool
assert_target_is_user_db normal name =
    if text_is_empty (normal name)
    then false
    else if any (str_eq (normal name)) reserved_container_names
    then false
    else true
