-- ===== src/Nginx/Proxied.antt =====
-- Every upstream that the templates pass requests to is one that they declare.
use interlock_old.Prelude.{
  ◌≡◌, inl, inr, ◌⊎◌, String, ◌<>◌, true, false, not, [], ◌∷◌, Option, none, some, ◌==◌,
  if◌then◌else◌,
}
use interlock_old.Prelude.Int.{ℤ}
use interlock_old.Go.Text.{contains}
use interlock_old.Go.Template.{Output, pieces, lit, val, when}
use interlock_old.Go.Template.Scan.{
  AllNames, AllNames-join, AllNames-each, AllNames-if, AllNames-when,
}
use interlock_old.Routing.{ContextRoot}
use interlock_old.Nginx.{Host}
use interlock_old.Nginx.Blocks.{
  pass_to, root_location, root_upstream, host_upstream, host_server, ssl_server, host_section,
}
use interlock_old.Nginx.Template.{}
use interlock_old.Nginx.Template.Plus.{plus_host_server}

-- The upstream of a context root is named with "ctx" in front.
unfoldable pub rooted_name : String → String → String
unfolding contains
rooted_name s v = if contains s "ctx" then "ctx" <> v else v

-- The value after proxy_pass
unfoldable pub proxy_target : String → String → Option String
unfolding contains rooted_name
proxy_target s v = if contains s "proxy_pass " then some (rooted_name s v) else none

-- The value after upstream
unfoldable pub upstream_name : String → String → Option String
unfolding contains rooted_name
upstream_name s v = if contains s "upstream " then some (rooted_name s v) else none

module _ (show_int : ℤ → String) {P : String → Type 0} where
  pass_to-targets : (h : Host) → P h.upstream.name → AllNames proxy_target P (pass_to h)
  unfolding pass_to proxy_target contains rooted_name
  pass_to-targets h p =
      AllNames-if proxy_target h.ssl_backend (record { holds = (p, tt) })
        (record { holds = (p, tt) })

  pub host_server-targets :
      (h : Host) → P h.upstream.name → AllNames proxy_target P (host_server show_int h)
  unfolding host_server proxy_target contains rooted_name
  host_server-targets h p =
      let pass = pass_to-targets h p in
      AllNames-join proxy_target (record { holds = tt })
        (AllNames-join proxy_target
          (AllNames-each proxy_target h.server_names (λ name. record { holds = tt }))
          (AllNames-join proxy_target (record { holds = tt })
            (AllNames-join proxy_target
              (AllNames-if proxy_target h.ssl_only (record { holds = tt })
                (AllNames-join proxy_target (record { holds = tt })
                  (AllNames-join proxy_target pass (
                    AllNames-join proxy_target (record { holds = tt })
                      (AllNames-join proxy_target
                        (AllNames-each proxy_target h.websocket_endpoints (λ ws.
                          AllNames-join proxy_target (record { holds = tt })
                            (AllNames-join proxy_target pass (record { holds = tt }))))
                        (record { holds = tt }))))))
              (record { holds = tt }))))

  ssl_server-targets :
      (h : Host) → P h.upstream.name → AllNames proxy_target P (ssl_server show_int h)
  unfolding ssl_server proxy_target contains rooted_name
  ssl_server-targets h p =
      let pass = pass_to-targets h p in
      AllNames-join proxy_target (record { holds = tt })
        (AllNames-join proxy_target
          (AllNames-each proxy_target h.server_names (λ name. record { holds = tt }))
          (AllNames-join proxy_target (record { holds = tt })
            (AllNames-join proxy_target pass (
              AllNames-join proxy_target (record { holds = tt })
                (AllNames-join proxy_target
                  (AllNames-each proxy_target h.websocket_endpoints (λ ws.
                    AllNames-join proxy_target (record { holds = tt })
                      (AllNames-join proxy_target pass (record { holds = tt }))))
                  (record { holds = tt }))))))

  pub plus_host_server-targets :
      (h : Host) → P h.upstream.name → AllNames proxy_target P (plus_host_server show_int h)
  unfolding plus_host_server proxy_target contains rooted_name
  plus_host_server-targets h p =
      let pass = pass_to-targets h p in
      AllNames-join proxy_target (record { holds = tt })
        (AllNames-join proxy_target
          (AllNames-each proxy_target h.server_names (λ name. record { holds = tt }))
          (AllNames-join proxy_target (record { holds = tt })
            (AllNames-join proxy_target
              (AllNames-if proxy_target h.ssl_only (record { holds = tt })
                (AllNames-join proxy_target (record { holds = tt })
                  (AllNames-join proxy_target pass (
                    AllNames-join proxy_target (record { holds = tt })
                      (AllNames-join proxy_target
                        (AllNames-each proxy_target h.websocket_endpoints (λ ws.
                          AllNames-join proxy_target (record { holds = tt })
                            (AllNames-join proxy_target pass (record { holds = tt }))))
                        (record { holds = tt }))))))
              (record { holds = tt }))))

  pub root_location-targets :
      (h : Host) (root : ContextRoot)
      → ((root.path == "") ≡ true) ⊎ P ("ctx" <> root.name)
      → AllNames proxy_target P (root_location show_int h root)
  unfolding root_location proxy_target contains rooted_name when
  root_location-targets h root (inl none_set) = rw (root_location, none_set) (record { holds = tt })
  root_location-targets h root (inr p) =
      AllNames-join proxy_target (record { holds = tt })
        (AllNames-join proxy_target
          (AllNames-when proxy_target (not (root.path == "")) (
            AllNames-join proxy_target (record { holds = tt })
              (AllNames-join proxy_target
                (AllNames-when proxy_target h.context_root_rewrite (record { holds = tt }))
                (record { holds = (p, tt) }))))
          (record { holds = tt }))

  pub host_section-targets :
      (server : Host → Output) (h : Host) (root : ContextRoot)
      → (P h.upstream.name → AllNames proxy_target P (server h))
      → ((root.path == "") ≡ false) ⊎ P h.upstream.name
      → AllNames proxy_target P (host_section show_int server h root)
  unfolding host_section root_upstream host_upstream proxy_target contains rooted_name
  host_section-targets server h root passes (inl set) =
      let servers : AllNames proxy_target P (root_upstream show_int h root) =
        AllNames-join proxy_target (record { holds = tt })
          (AllNames-join proxy_target
            (AllNames-each proxy_target h.upstream.servers (λ up. record { holds = tt }))
            (record { holds = tt })) in
      rw (host_section, set)
        (AllNames-join proxy_target (record { holds = tt })
          (AllNames-join proxy_target servers (record { holds = tt })))
  host_section-targets server h root passes (inr p) =
      let servers =
        AllNames-each proxy_target {P = P}
          {body = λ up. pieces (val "server " up.addr ∷ lit ";\n" ∷ lit "        " ∷ [])}
          h.upstream.servers (λ up. record { holds = tt }) in
      AllNames-join proxy_target (record { holds = tt })
        (AllNames-join proxy_target
          (AllNames-if proxy_target (not (root.path == ""))
            (AllNames-join proxy_target (record { holds = tt })
              (AllNames-join proxy_target servers (record { holds = tt })))
            (AllNames-join proxy_target
              (AllNames-join proxy_target (record { holds = tt })
                (AllNames-join proxy_target
                  (AllNames-if proxy_target h.ip_hash (record { holds = tt })
                    (record { holds = tt }))
                  (AllNames-join proxy_target (record { holds = tt })
                    (AllNames-join proxy_target servers (record { holds = tt })))))
              (AllNames-join proxy_target (passes p) (
                AllNames-join proxy_target
                  (AllNames-when proxy_target h.ssl (ssl_server-targets h p))
                  (record { holds = tt })))))
          (record { holds = tt }))
