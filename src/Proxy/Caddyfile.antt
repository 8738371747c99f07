-- ===== src/Proxy/Caddyfile.antt =====
-- `render_caddyfile` of backend/proxy/caddyfile_gen.py.
use dbmanager.Base.{
  String, none, some, List, [], ◌∷◌, ◌++◌, ◌&&◌, ◌==◌, text_is_empty, if◌then◌else◌,
}
use Prim.Native.Char.{code}
use dbmanager.Base.Text.{add, rstrip}
use dbmanager.Proxy.{
  disabled, http, https, no_acme, dns, http01, manual, selfsigned, DnsProvider, cloudflare, route53,
  digitalocean, gandi, duckdns, ProxyConfig,
}

-- `"\n".join(lines)`
unfoldable pub join : List String → String
join [] = ""
join (l ∷ ls) = let rest = join ls in elim ls [ [] ↦ l | m ∷ ms ↦ add l (add "\n" rest) ]

unfoldable pub dns_directive : DnsProvider → String
dns_directive cloudflare = "cloudflare {env.CF_API_TOKEN}"
dns_directive route53 = "route53"
dns_directive digitalocean = "digitalocean {env.DO_AUTH_TOKEN}"
dns_directive gandi = "gandi {env.GANDI_API_TOKEN}"
dns_directive duckdns = "duckdns {env.DUCKDNS_API_TOKEN}"

-- The line with the address for the certificate authority.
unfoldable pub email_lines : ProxyConfig → List String
email_lines c = if text_is_empty c.email then [] else elim c.method [
  | dns ↦ add "    email " c.email ∷ []
  | http01 ↦ add "    email " c.email ∷ []
  | no_acme ↦ []
  | manual ↦ []
  | selfsigned ↦ []
]

unfoldable pub global_block : ProxyConfig → String
unfolding join
global_block c = join (
    ("{" ∷ "    admin unix//run/caddy-admin/admin.sock" ∷ [])
    ++ elim c.mode [ disabled ↦ [] | http ↦ "    auto_https off" ∷ [] | https ↦ email_lines c ]
    ++ "}" ∷ [])

unfoldable pub tls_directive : ProxyConfig → String
tls_directive c = elim c.method [
  | selfsigned ↦ "    tls internal\n"
  | manual ↦ add "    tls " (add c.cert_path (add " " (add c.key_path "\n")))
  | dns ↦ elim c.dns_provider [
    | none ↦ ""
    | some p ↦ add "    tls {\n        dns " (add (dns_directive p) "\n    }\n")
  ]
  | http01 ↦ ""
  | no_acme ↦ ""
]

unfoldable pub tls_block : ProxyConfig → String
tls_block c = elim c.mode [ disabled ↦ "" | http ↦ "" | https ↦ tls_directive c ]

abbrev pub security_headers_block : String
security_headers_block =
    "    header {\n        X-Content-Type-Options nosniff\n        X-Frame-Options DENY\n        Referrer-Policy strict-origin-when-cross-origin\n        Permissions-Policy \"accelerometer=(), camera=(), geolocation=(), gyroscope=(), magnetometer=(), microphone=(), payment=(), usb=()\"\n        Strict-Transport-Security \"max-age=31536000; includeSubDomains\"\n        -Server\n    }"

unfoldable pub site_addr : ProxyConfig → String
site_addr c = elim c.mode [ disabled ↦ c.domain | http ↦ add "http://" c.domain | https ↦ c.domain ]

-- `s.rstrip("/")`
unfoldable pub rstrip_slash : String → String
rstrip_slash String.[] = String.[]
rstrip_slash (String.◌∷◌ c s) =
    let rest = rstrip_slash s in
    if text_is_empty rest && code c == b'/' then String.[] else String.◌∷◌ c rest

unfoldable pub backend_prefix : ProxyConfig → String
backend_prefix c =
    let p = rstrip_slash c.backend_path_prefix in if text_is_empty p then "/api" else p

unfoldable pub site_block : ProxyConfig → String
unfolding join
site_block c =
    let tls = tls_block c in
    join (
      (add (site_addr c) " {"
        ∷ security_headers_block
        ∷ add "    handle " (add (backend_prefix c) "/* {")
        ∷ add "        reverse_proxy " c.backend_upstream
        ∷ "    }"
        ∷ "    handle {"
        ∷ add "        reverse_proxy " c.frontend_upstream
        ∷ "    }"
        ∷ [])
      ++ (if text_is_empty tls then [] else rstrip tls ∷ [])
      ++ "}" ∷ [])

abbrev pub placeholder : String
placeholder =
    "{\n    admin unix//run/caddy-admin/admin.sock\n    auto_https off\n}\n\n:80 {\n    respond \"DBManager proxy disabled\" 503\n}\n"

abbrev pub active_caddyfile : ProxyConfig → String
active_caddyfile c = add (global_block c) (add "\n\n" (add (site_block c) "\n"))

unfoldable pub render_caddyfile : ProxyConfig → String
render_caddyfile c =
    if c.enabled
    then elim c.mode [
      | disabled ↦ placeholder
      | http ↦ active_caddyfile c
      | https ↦ active_caddyfile c
    ]
    else placeholder
