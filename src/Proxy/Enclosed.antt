-- ===== src/Proxy/Enclosed.antt =====
-- The Caddyfile of a validated configuration: no value closes or opens a block.
use dbmanager.Base.{
  String, Bool, true, false, some, List, [], ◌∷◌, ◌++◌, ◌≡◌, ◌≢◌, refl, ◌∙◌, ap, text_is_empty,
  arith, Bool-cases, inl, inr, if◌then◌else◌,
}
use dbmanager.Base.Text.{add}
use dbmanager.Proxy.{ProxyMode, disabled, http, https, ProxyConfig, all_chars, validate}
use dbmanager.Proxy.Caddyfile.{
  join, global_block, security_headers_block, site_addr, rstrip_slash, backend_prefix, site_block,
  active_caddyfile, placeholder, render_caddyfile,
}
use dbmanager.Proxy.Valid.{Safe, IsSafe, validate-IsSafe}
use dbmanager.Proxy.Lines.{Plain, Safe-Plain, add-Plain, join_line, join_before, Inner, join-Inner}
use dbmanager.Proxy.Blocks.{scan, Scans, Scans-add, scan-inside, scan-outside}
use dbmanager.Proxy.Certificate.{inside, global_block-Scans, tls-Inner}

rstrip_slash-Safe : (s : String) → Safe s → Safe (rstrip_slash s)
unfolding rstrip_slash all_chars
rstrip_slash-Safe String.[] h = refl
rstrip_slash-Safe (String.◌∷◌ c s) h = ground (arith, rstrip_slash-Safe s)

module _ (c : ProxyConfig) (h : IsSafe c) where
  site_addr-Plain : Plain (site_addr c)
  unfolding site_addr all_chars
  site_addr-Plain =
      let domain = Safe-Plain c.domain h.domain in
      elim c.mode
        as (λ m.
          Plain
            (elim m [ disabled ↦ c.domain | http ↦ add "http://" c.domain | https ↦ c.domain ])) [
              | disabled ↦ domain
              | http ↦ add-Plain "http://" c.domain refl domain
              | https ↦ domain
            ]

  backend_prefix-Plain : Plain (backend_prefix c)
  unfolding backend_prefix all_chars
  backend_prefix-Plain = elim (Bool-cases (text_is_empty (rstrip_slash c.backend_path_prefix))) [
    | inl e ↦ rw e
    | inr e ↦ rw e (Safe-Plain _ (rstrip_slash-Safe c.backend_path_prefix h.backend_path_prefix))
  ]

  address_line : Scans 0 (add (site_addr c) " {") 1 (add (site_addr c) " ")
  unfolding scan
  address_line =
      Scans-add 0 0 1 (site_addr c) " {" (site_addr c) " " (scan-outside _ site_addr-Plain) refl

  handle_line : Scans 1 (add "    handle " (add (backend_prefix c) "/* {")) 2 ""
  unfolding scan add
  handle_line =
      Scans-add 1 1 2 "    handle " (add (backend_prefix c) "/* {") "" "" refl
        (Scans-add 1 1 2 (backend_prefix c) "/* {" "" "" (inside _ backend_prefix-Plain) refl)

  upstream_line : (u : String) → Safe u → Scans 2 (add "        reverse_proxy " u) 2 ""
  unfolding scan add
  upstream_line u k =
      Scans-add 2 2 2 "        reverse_proxy " u "" "" refl (scan-inside 1 u (Safe-Plain u k))

  -- The lines of the site after the one of its address.
  site_lines :
      (xs : List String)
      → Inner xs
      → Scans 0
          (join (
            (add (site_addr c) " {"
              ∷ security_headers_block
              ∷ add "    handle " (add (backend_prefix c) "/* {")
              ∷ add "        reverse_proxy " c.backend_upstream
              ∷ "    }"
              ∷ "    handle {"
              ∷ add "        reverse_proxy " c.frontend_upstream
              ∷ "    }"
              ∷ [])
            ++ xs
            ++ "}" ∷ []))
          0
          (add (add (site_addr c) " ") "")
  unfolding scan add
  site_lines xs h' = join_line 0 0 0 _ _ _ _ "" address_line (
      join_line 1 0 0 _ _ _ "" "" refl (
        join_line 1 1 0 _ _ _ "" "" handle_line (
          join_line 2 1 0 _ _ _ "" "" (upstream_line c.backend_upstream h.backend_upstream) (
            join_line 2 0 0 "    }" _ _ "" "" refl (
              join_line 1 1 0 "    handle {" _ _ "" "" refl (
                join_line 2 1 0 _ _ _ "" "" (upstream_line c.frontend_upstream h.frontend_upstream)
                  (join_before 2 0 "    }" xs "" refl (join-Inner xs h'))))))))

  site_block-Scans : Scans 0 (site_block c) 0 (add (add (site_addr c) " ") "")
  unfolding site_block
  site_block-Scans = site_lines _ (tls-Inner c h)

  active-Scans :
      Scans 0 (active_caddyfile c) 0 (add "\n\n" (add (add (add (site_addr c) " ") "") "\n"))
  unfolding scan add
  active-Scans = Scans-add 0 0 0 (global_block c) _ "" _ (global_block-Scans c h) (
      Scans-add 0 0 0 "\n\n" (add (site_block c) "\n") "\n\n" _ refl
        (Scans-add 0 0 0 (site_block c) "\n" _ "\n" site_block-Scans refl))

add_nil : (s : String) → add s "" ≡ s
unfolding add
add_nil String.[] = refl
add_nil (String.◌∷◌ c s) = ap (String.◌∷◌ c) (add_nil s)

pick_active :
    (on : Bool) (m : ProxyMode) (a : String)
    → on ≡ true
    → m ≢ disabled
    → (if on then elim m [ disabled ↦ placeholder | http ↦ a | https ↦ a ] else placeholder) ≡ a
pick_active false m a e n = cc
pick_active true disabled a e n = absurd (n refl)
pick_active true http a e n = refl
pick_active true https a e n = refl

-- In the Caddyfile that is rendered of a validated configuration with an active proxy every brace has
-- its partner, and outside of all blocks there is the site's address alone: no value of the
-- configuration closes a block or opens one.
pub render_caddyfile-encloses :
    (lower : String → String) (raw c : ProxyConfig)
    → validate lower raw ≡ some c
    → c.enabled ≡ true
    → c.mode ≢ disabled
    → scan 0 (render_caddyfile c) ≡ some (0, add "\n\n" (add (add (site_addr c) " ") "\n"))
unfolding render_caddyfile
render_caddyfile-encloses lower raw c h on active =
    let text = pick_active c.enabled c.mode (active_caddyfile c) on active in
    let scanned = active-Scans c (validate-IsSafe lower raw c h) in
    ap (scan 0) text
    ∙ scanned
    ∙ ap (λ a. some (0, add "\n\n" (add a "\n"))) (add_nil (add (site_addr c) " "))
