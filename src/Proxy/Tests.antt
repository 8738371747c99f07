-- ===== src/Proxy/Tests.antt =====
-- A proxy over HTTPS with a certificate by the DNS challenge.
use dbmanager.Base.{true, none, some, ◌≡◌, ◌≢◌, refl}
use dbmanager.Base.Text.{add, strip, lstrip, rstrip}
use dbmanager.Proxy.{
  disabled, https, dns, cloudflare, ProxyConfig, all_chars, valid_labels, valid_port,
  valid_upstream, valid_mail_host, valid_email, valid_path, valid_prefix, is_host_char,
  is_mail_char, validated, checked_or_empty, validate_domain, validate_email, validate_path,
  validate_upstream, validate_path_prefix, validate, is_configured,
}
use dbmanager.Proxy.Caddyfile.{site_addr, render_caddyfile}
use dbmanager.Proxy.Blocks.{scan}
use dbmanager.Proxy.Enclosed.{render_caddyfile-encloses}

abbrev raw : ProxyConfig
raw = record {
  enabled = true;
  mode = https;
  domain = " db.example.com ";
  method = dns;
  email = "ops@example.com";
  dns_provider = some cloudflare;
  cert_path = "";
  key_path = "/etc/key.pem";
  frontend_upstream = "frontend:5173";
  backend_upstream = "backend:8000";
  backend_path_prefix = "/api/";
}

abbrev valid : ProxyConfig
valid = record raw { domain = "db.example.com" }

raw_is_valid : validate (λ s. s) raw ≡ some valid
unfolding validate validate_domain validate_email validate_path validate_upstream
    validate_path_prefix validated checked_or_empty strip lstrip rstrip valid_labels valid_port
    valid_upstream valid_mail_host valid_email valid_path valid_prefix is_host_char is_mail_char
    all_chars
raw_is_valid = refl

https_is_active : https ≢ disabled
https_is_active e = cc

render_caddyfile-encloses_example :
    scan 0 (render_caddyfile valid) ≡ some (0, add "\n\n" (add (add (site_addr valid) " ") "\n"))
render_caddyfile-encloses_example =
    render_caddyfile-encloses (λ s. s) raw valid raw_is_valid refl https_is_active

-- A domain with braces is refused.
braces_refused : validate_domain (λ s. s) "a.b { } evil" ≡ none
unfolding validate_domain checked_or_empty strip lstrip rstrip valid_labels
braces_refused = refl

valid_is_configured : is_configured valid ≡ true
unfolding is_configured
valid_is_configured = refl
