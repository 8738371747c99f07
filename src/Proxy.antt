-- ===== src/Proxy.antt =====
-- The reverse proxy: the validated configuration of backend/proxy/config.py and the Caddyfile that
-- backend/proxy/caddyfile_gen.py renders of it. `lower` is Python's `str.lower`. A `$` of the regular
-- expressions also matches before a last newline, which `strip` has taken away.
pub mod Valid
pub mod Caddyfile
pub mod Blocks
pub mod Lines
pub mod Certificate
pub mod Enclosed
mod Tests
use dbmanager.Base.{
  ℕ, zero, suc, ◌+◌, ◌*◌, ◌-◌, String, Bool, true, false, Option, none, some, List, [], ◌∷◌, ◌&&◌,
  ◌||◌, not, ◌==◌, leb, ltb, text_is_empty, if◌then◌else◌,
}
use Prim.Native.Char.{code}
use dbmanager.Base.Text.{strip, begins_with, len}

pub data ProxyMode : Type 0 where
  disabled http https : ProxyMode

pub data AcmeMethod : Type 0 where
  no_acme dns http01 manual selfsigned : AcmeMethod

pub data DnsProvider : Type 0 where
  cloudflare route53 digitalocean gandi duckdns : DnsProvider

-- The fields that the Caddyfile is made of.
pub record ProxyConfig : Type 0 where
  pub enabled : Bool
  pub mode : ProxyMode
  pub domain : String
  pub method : AcmeMethod
  pub email : String
  pub dns_provider : Option DnsProvider
  pub cert_path : String
  pub key_path : String
  pub frontend_upstream : String
  pub backend_upstream : String
  pub backend_path_prefix : String

abbrev pub is_digit : ℕ → Bool
is_digit n = leb 48 n && leb n 57

abbrev pub is_lower : ℕ → Bool
is_lower n = leb 97 n && leb n 122

abbrev pub is_upper : ℕ → Bool
is_upper n = leb 65 n && leb n 90

abbrev pub is_alnum : ℕ → Bool
is_alnum n = is_lower n || is_digit n

abbrev pub is_letter : ℕ → Bool
is_letter n = is_lower n || is_upper n

unfoldable pub all_chars : (ℕ → Bool) → String → Bool
all_chars p String.[] = true
all_chars p (String.◌∷◌ c s) = p (code c) && all_chars p s

-- `_DOMAIN_RE`: labels of 1 to 63 letters, digits and inner dashes, joined by dots. `n` characters of
-- the label are read, and `closed` says whether the last one is no dash.
unfoldable pub valid_labels : ℕ → Bool → String → Bool
valid_labels n closed String.[] = ltb 0 n && leb n 63 && closed
valid_labels n closed (String.◌∷◌ c s) =
    let next = valid_labels 0 false s in
    let same = valid_labels (suc n) (is_alnum (code c)) s in
    if code c == b'.'
    then ltb 0 n && leb n 63 && closed && next
    else (is_alnum (code c) || ltb 0 n && code c == b'-') && same

-- `_UPSTREAM_RE` and the range of the port. `n` characters of the host are read.
unfoldable pub valid_port : ℕ → ℕ → String → Bool
valid_port n port String.[] = ltb 0 n && leb n 5 && ltb 0 port && leb port 65535
valid_port n port (String.◌∷◌ c s) =
    is_digit (code c) && valid_port (suc n) (port * 10 + (code c - 48)) s

unfoldable pub is_host_char : ℕ → ℕ → Bool
is_host_char n k = is_alnum k || ltb 0 n && (k == b'.' || k == b'_' || k == b'-')

unfoldable pub valid_upstream : ℕ → Bool → String → Bool
unfolding is_host_char
valid_upstream n closed String.[] = false
valid_upstream n closed (String.◌∷◌ c s) =
    let rest = valid_upstream (suc n) (is_alnum (code c)) s in
    if code c == b':'
    then ltb 0 n && leb n 255 && closed && valid_port 0 0 s
    else is_host_char n (code c) && rest

-- `_EMAIL_RE`: after the `@`, `n` characters are read, and `letters` of them are letters since a dot
-- that is not the first character.
abbrev pub mail_letters : ℕ → Option ℕ → ℕ → Option ℕ
mail_letters n letters k =
    if k == b'.'
    then (if ltb 0 n then some 0 else none)
    else if is_letter k
    then elim letters [ none ↦ none | some l ↦ some (suc l) ]
    else none

unfoldable pub valid_mail_host : ℕ → Option ℕ → String → Bool
valid_mail_host n letters String.[] = elim letters [ none ↦ false | some k ↦ leb 2 k ]
valid_mail_host n letters (String.◌∷◌ c s) =
    (is_letter (code c) || is_digit (code c) || code c == b'.' || code c == b'-')
    && valid_mail_host (suc n) (mail_letters n letters (code c)) s

unfoldable pub is_mail_char : ℕ → Bool
is_mail_char k =
    is_letter k || is_digit k || k == b'.' || k == b'_' || k == b'%' || k == b'+' || k == b'-'

unfoldable pub valid_email : ℕ → String → Bool
unfolding is_mail_char
valid_email n String.[] = false
valid_email n (String.◌∷◌ c s) =
    let rest = valid_email (suc n) s in
    if code c == b'@' then ltb 0 n && valid_mail_host 0 none s else is_mail_char (code c) && rest

abbrev pub is_path_char : ℕ → Bool
is_path_char n = is_letter n || is_digit n || n == b'/' || n == b'_' || n == b'.' || n == b'-'

-- `_SAFE_PATH_RE`
unfoldable pub valid_path : String → Bool
unfolding all_chars
valid_path String.[] = false
valid_path (String.◌∷◌ c s) = code c == b'/' && all_chars is_path_char s && not (text_is_empty s)

abbrev pub is_prefix_char : ℕ → Bool
is_prefix_char n = is_letter n || is_digit n || n == b'/' || n == b'_' || n == b'-'

-- the expression for `backend_path_prefix`
unfoldable pub valid_prefix : String → Bool
unfolding all_chars
valid_prefix String.[] = false
valid_prefix (String.◌∷◌ c s) = code c == b'/' && all_chars is_prefix_char s

-- The validators: each answers with the stripped value, or `none` for the `ValueError`.
unfoldable pub validated : (String → Bool) → String → Option String
validated valid v = if valid v then some v else none

-- An empty value is let through.
unfoldable pub checked_or_empty : (String → Bool) → String → Option String
checked_or_empty valid v = if text_is_empty v || valid v then some v else none

module _ (lower : String → String) where
  unfoldable pub validate_domain : String → Option String
  validate_domain v = checked_or_empty (valid_labels 0 false) (lower (strip v))

unfoldable pub validate_email : String → Option String
validate_email v = checked_or_empty (valid_email 0) (strip v)

unfoldable pub validate_path : String → Option String
validate_path v = checked_or_empty valid_path (strip v)

unfoldable pub validate_upstream : String → Option String
validate_upstream v = validated (valid_upstream 0 false) (strip v)

unfoldable pub validate_path_prefix : String → Option String
validate_path_prefix v = validated valid_prefix (strip v)

infixl 5 ◌>>=◌
abbrev pub ◌>>=◌ : {A B : Type 0} → Option A → (A → Option B) → Option B
none >>= f = none
some a >>= f = f a

-- The validation of the fields of a configuration that the Caddyfile is made of.
unfoldable pub validate : (String → String) → ProxyConfig → Option ProxyConfig
validate lower c = do
  domain ← validate_domain lower c.domain
  email ← validate_email c.email
  cert_path ← validate_path c.cert_path
  key_path ← validate_path c.key_path
  frontend_upstream ← validate_upstream c.frontend_upstream
  backend_upstream ← validate_upstream c.backend_upstream
  backend_path_prefix ← validate_path_prefix c.backend_path_prefix
  some (record c {
    domain = domain;
    email = email;
    cert_path = cert_path;
    key_path = key_path;
    frontend_upstream = frontend_upstream;
    backend_upstream = backend_upstream;
    backend_path_prefix = backend_path_prefix;
  })

unfoldable pub is_configured : ProxyConfig → Bool
is_configured c =
    let tls : Bool = elim c.method [
      | manual ↦ not (text_is_empty c.cert_path) && not (text_is_empty c.key_path)
      | selfsigned ↦ true
      | dns ↦ not (text_is_empty c.email) && elim c.dns_provider [ none ↦ false | some _ ↦ true ]
      | http01 ↦ not (text_is_empty c.email)
      | no_acme ↦ false
    ] in
    c.enabled
    && not (text_is_empty c.domain)
    && elim c.mode [ disabled ↦ false | http ↦ true | https ↦ tls ]
