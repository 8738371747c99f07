-- ===== src/Audit/Tests.antt =====
-- The audit details at concrete values.
use dbmanager.Base.{String, ◌≡◌, refl}
use dbmanager.Json.{Json, str, dict, end, field}
use dbmanager.Audit.{is_secret_key, sanitize_details, truncate}
use dbmanager.Audit.Sanitized.{IsClean, sanitize_details-IsClean}

abbrev same : String → String
same s = s

abbrev login_details : Json
login_details =
    dict (field "params" (dict (field "smtp_password" (str "x") end)) (field "name" (str "db") end))

sanitize_login :
    sanitize_details same login_details
    ≡ dict (
        field "params" (dict (field "smtp_password" (str "***") end)) (field "name" (str "db") end))
unfolding sanitize_details is_secret_key truncate
sanitize_login = refl

sanitize_details-IsClean_example :
    IsClean same (sanitize_details same login_details)
    × (sanitize_details same (sanitize_details same login_details)
        ≡ sanitize_details same login_details)
sanitize_details-IsClean_example = sanitize_details-IsClean same login_details
