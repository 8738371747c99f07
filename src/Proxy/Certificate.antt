-- ===== src/Proxy/Certificate.antt =====
-- The global block and the directive for the certificate: their values stay on their lines' depth.
use dbmanager.Base.{
  String, none, some, List, [], ◌∷◌, ◌++◌, refl, text_is_empty, Bool-cases, inl, inr, if◌then◌else◌,
}
use dbmanager.Base.Text.{add, rstrip}
use dbmanager.Proxy.{
  disabled, http, https, no_acme, dns, http01, manual, selfsigned, cloudflare, route53,
  digitalocean, gandi, duckdns, ProxyConfig, all_chars,
}
use dbmanager.Proxy.Caddyfile.{
  join, dns_directive, email_lines, global_block, tls_directive, tls_block,
}
use dbmanager.Proxy.Valid.{IsSafe}
use dbmanager.Proxy.Lines.{
  Plain, Safe-Plain, add-Plain, rstrip-Plain, join_line, join_before, Inner, join-Inner,
}
use dbmanager.Proxy.Blocks.{scan, Scans, scan-inside}

pub inside : (s : String) → Plain s → Scans 1 s 1 ""
inside = scan-inside 0

global_lines :
    (xs : List String)
    → Inner xs
    → Scans 0
        (join (("{" ∷ "    admin unix//run/caddy-admin/admin.sock" ∷ []) ++ xs ++ "}" ∷ []))
        0
        ""
unfolding scan add
global_lines xs h =
    join_line 0 0 0 "{" "    admin unix//run/caddy-admin/admin.sock" (xs ++ "}" ∷ []) "" "" refl
      (join_before 1 0 "    admin unix//run/caddy-admin/admin.sock" xs "" refl (join-Inner xs h))

off_line : Scans 1 "    auto_https off" 1 ""
unfolding scan
off_line = refl

module _ (c : ProxyConfig) (h : IsSafe c) where
  email_line : Scans 1 (add "    email " c.email) 1 ""
  unfolding all_chars
  email_line =
      inside (add "    email " c.email)
        (add-Plain "    email " c.email refl (Safe-Plain c.email h.email))

  email_lines-Inner : Inner (email_lines c)
  unfolding email_lines all_chars
  email_lines-Inner = elim (Bool-cases (text_is_empty c.email)) [
    | inl e ↦ rw e tt
    | inr e ↦
        rw e
          (elim c.method
            as (λ m. Inner (elim m [
              | dns ↦ add "    email " c.email ∷ []
              | http01 ↦ add "    email " c.email ∷ []
              | no_acme ↦ []
              | manual ↦ []
              | selfsigned ↦ []
            ])) [
              | dns ↦ (email_line, tt)
              | http01 ↦ (email_line, tt)
              | no_acme ↦ tt
              | manual ↦ tt
              | selfsigned ↦ tt
            ])
  ]

  pub global_block-Scans : Scans 0 (global_block c) 0 ""
  unfolding global_block
  global_block-Scans =
      global_lines _
        (elim c.mode
          as (λ m.
            Inner (elim m [
              | disabled ↦ []
              | http ↦ "    auto_https off" ∷ []
              | https ↦ email_lines c
            ])) [ disabled ↦ tt | http ↦ (off_line, tt) | https ↦ email_lines-Inner ])

  certificate :
      Scans 1 (rstrip (add "    tls " (add c.cert_path (add " " (add c.key_path "\n"))))) 1 ""
  unfolding all_chars
  certificate = inside _ (
      rstrip-Plain _ (
        add-Plain "    tls " _ refl (
          add-Plain c.cert_path _ (Safe-Plain c.cert_path h.cert_path) (
            add-Plain " " _ refl
              (add-Plain c.key_path "\n" (Safe-Plain c.key_path h.key_path) refl)))))

  plugin :
      Scans 1
        (rstrip (elim c.dns_provider [
          | none ↦ ""
          | some p ↦ add "    tls {\n        dns " (add (dns_directive p) "\n    }\n")
        ]))
        1
        ""
  unfolding scan rstrip add dns_directive
  plugin =
      elim c.dns_provider
        as (λ o.
          Scans 1
            (rstrip (elim o [
              | none ↦ ""
              | some p ↦ add "    tls {\n        dns " (add (dns_directive p) "\n    }\n")
            ]))
            1 "") [
              | none ↦ refl
              | some cloudflare ↦ refl
              | some route53 ↦ refl
              | some digitalocean ↦ refl
              | some gandi ↦ refl
              | some duckdns ↦ refl
            ]

  tls_directive-Scans : Scans 1 (rstrip (tls_directive c)) 1 ""
  unfolding tls_directive scan rstrip add dns_directive
  tls_directive-Scans =
      elim c.method
        as (λ m.
          Scans 1
            (rstrip (elim m [
              | selfsigned ↦ "    tls internal\n"
              | manual ↦ add "    tls " (add c.cert_path (add " " (add c.key_path "\n")))
              | dns ↦ elim c.dns_provider [
                | none ↦ ""
                | some p ↦ add "    tls {\n        dns " (add (dns_directive p) "\n    }\n")
              ]
              | http01 ↦ ""
              | no_acme ↦ ""
            ]))
            1 "") [
              | selfsigned ↦ refl
              | manual ↦ certificate
              | dns ↦ plugin
              | http01 ↦ refl
              | no_acme ↦ refl
            ]

  pub tls-Inner : Inner (let tls = tls_block c in if text_is_empty tls then [] else rstrip tls ∷ [])
  unfolding tls_block scan rstrip
  tls-Inner = elim (Bool-cases (text_is_empty (tls_block c))) [
    | inl e ↦ rw e tt
    | inr e ↦ rw e (
      elim c.mode
          as (λ m.
            Scans 1 (rstrip (elim m [ disabled ↦ "" | http ↦ "" | https ↦ tls_directive c ])) 1
              "") [ disabled ↦ refl | http ↦ refl | https ↦ tls_directive-Scans ],
      tt,
    )
  ]
