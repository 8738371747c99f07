-- ===== src/Audit.antt =====
-- backend/core/audit.py and the write of backend/db/repositories/audit_repo.py: the details of an
-- audit entry are sanitised before they are stored, and a failed write is swallowed.
pub mod Sanitized
mod Tests
use dbmanager.Base.{ℕ, String, Bool, Option, List, [], ◌∷◌, ◌++◌, any, ltb, if◌then◌else◌}
use dbmanager.Base.Text.{len, cut, contains}
use dbmanager.Json.{
  Json, Items, Fields, null, bool, num, str, list, tuple, dict, nil, cons, end, field,
}

abbrev pub secret_key_tags : List String
secret_key_tags =
    "password" ∷ "secret" ∷ "token" ∷ "apikey" ∷ "api_key" ∷ "credential" ∷ "private_key"
    ∷ "access_key" ∷ []

-- `lower` is Python's `str.lower`.
module _ (lower : String → String) where
  pub is_secret_key : String → Bool
  unfolding contains
  is_secret_key k = let key = lower k in any (λ tag. contains tag key) secret_key_tags

-- `details[:500] + "…"` for a text of more than 500 characters
unfoldable pub truncate : String → String
truncate s = if ltb 500 (len s) then cut 500 s "…" else s

module _ (lower : String → String) where
  unfoldable mutual
    pub sanitize_details : Json → Json
    sanitize_details null = null
    sanitize_details (bool b) = bool b
    sanitize_details (num n) = num n
    sanitize_details (str s) = str (truncate s)
    sanitize_details (list xs) = list (sanitize_items xs)
    sanitize_details (tuple xs) = tuple (sanitize_items xs)
    sanitize_details (dict fs) = dict (sanitize_fields fs)

    pub sanitize_items : Items → Items
    sanitize_items nil = nil
    sanitize_items (cons v xs) = cons (sanitize_details v) (sanitize_items xs)

    pub sanitize_fields : Fields → Fields
    sanitize_fields end = end
    sanitize_fields (field k v fs) =
        field k (if is_secret_key lower k then str "***" else sanitize_details v)
          (sanitize_fields fs)

pub record Entry : Type 0 where
  pub action : String
  pub status : String
  pub user_id : Option ℕ
  pub username_snapshot : Option String
  pub resource_type : Option String
  pub resource_id : Option ℕ
  pub details : Json

-- The audit table, and whether a write to it succeeds.
pub record AuditLog : Type 0 where
  pub is_up : Bool
  pub entries : List Entry

module _ (lower : String → String) where
  unfoldable pub record_audit : Entry → AuditLog → AuditLog
  record_audit e log =
      if log.is_up
      then record log {
        entries = log.entries ++ (record e { details = sanitize_details lower e.details }) ∷ [];
      }
      else log
