-- ===== src/Nginx/Template/Plus.antt =====
-- ext/lb/nginx/template_nginxplus.go: the template for NGINX Plus, which differs from the other one in
-- the server of unknown hosts and in the servers of hosts without SSL.
use interlock_old.Prelude.{String, [], ◌∷◌, if◌then◌else◌}
use interlock_old.Prelude.Int.{ℤ}
use interlock_old.Go.Outcome.{Outcome, ok, ◌>>=◌}
use interlock_old.Go.Template.{Output, pieces, ◌⊕◌, lit, val, when, each, each_at}
use interlock_old.Config.{ExtensionConfig}
use interlock_old.Nginx.{Host, Config}
use interlock_old.Nginx.Blocks.{pass_to, root_location, host_section}
use interlock_old.Nginx.Template.{main_settings, includes}

module _ (show_int : ℤ → String) where
  unfoldable pub plus_server : ExtensionConfig → Output
  unfolding when each
  plus_server cfg = pieces (
      lit "    # default host return 503\n"
      ∷ lit "    server {\n"
      ∷ val "            listen " (show_int cfg.port)
      ∷ lit ";\n"
      ∷ lit "            server_name _;\n"
      ∷ lit "\n"
      ∷ lit "\t    root /usr/share/nginx/html;\n"
      ∷ lit "\n"
      ∷ lit "\t    # nginxplus\n"
      ∷ lit "    \t    location = / {\n"
      ∷ lit "    \t        return 301 /status.html;\n"
      ∷ lit "    \t    }\n"
      ∷ lit "    \t    location = /status.html { }\n"
      ∷ lit "\t    # end nginxplus\n"
      ∷ lit "\n"
      ∷ lit "    \t    location /status {\n"
      ∷ lit "    \t        status;\n"
      ∷ lit "    \t    }\n"
      ∷ lit "\t    "
      ∷ [])

  unfoldable pub plus_end : Output
  plus_end = pieces (lit "\n" ∷ lit "    }\n" ∷ lit "\n" ∷ lit "    " ∷ [])

  unfoldable pub plus_host_server : Host → Output
  unfolding each pass_to
  plus_host_server h =
      pieces (
        lit "    server {\n"
        ∷ val "        listen " (show_int h.port)
        ∷ lit ";\n"
        ∷ lit "\n"
        ∷ lit "        server_name"
        ∷ [])
      ⊕ each (λ name. pieces (val " " name ∷ [])) h.server_names
      ⊕ pieces (lit ";\n" ∷ lit "        " ∷ [])
      ⊕ (if h.ssl_only
          then (pieces (lit "return 302 https://$server_name$request_uri;" ∷ []))
          else (pieces (lit "\n" ∷ lit "        location / {\n" ∷ lit "            " ∷ [])
              ⊕ pass_to h
              ⊕ pieces (
                  lit "\n"
                  ∷ lit "        }\n"
                  ∷ lit "\n"
                  ∷ val "        status_zone " h.upstream.name
                  ∷ lit "_backend;\n"
                  ∷ lit "\n"
                  ∷ lit "        "
                  ∷ [])
              ⊕ each
                  (λ ws.
                    pieces
                      (lit "\n" ∷ val "        location " ws ∷ lit " {\n" ∷ lit "            " ∷ [])
                    ⊕ pass_to h
                    ⊕ pieces (
                        lit "\n"
                        ∷ lit "            proxy_http_version 1.1;\n"
                        ∷ lit "            proxy_set_header Upgrade $http_upgrade;\n"
                        ∷ lit "            proxy_set_header Connection $connection_upgrade;\n"
                        ∷ lit "        }\n"
                        ∷ lit "\n"
                        ∷ lit "    \tlocation /status {\n"
                        ∷ lit "    \t    status;\n"
                        ∷ lit "    \t}\n"
                        ∷ lit "\n"
                        ∷ lit "        "
                        ∷ []))
                  h.websocket_endpoints
              ⊕ pieces (lit "\n" ∷ lit "        " ∷ [])))
      ⊕ pieces (lit "\n" ∷ lit "    }\n" ∷ lit "    " ∷ [])

  unfoldable pub nginx_plus_conf_template : Config → Outcome (Output)
  unfolding each_at main_settings plus_server root_location plus_end host_section plus_host_server
      includes
  nginx_plus_conf_template config = do
    locations ← each_at (λ h. h.context_root) (root_location show_int) config.hosts
    sections ← each_at (λ h. h.context_root) (host_section show_int plus_host_server) config.hosts
    ok (
        main_settings show_int config.config
        ⊕ plus_server config.config
        ⊕ locations
        ⊕ plus_end
        ⊕ sections
        ⊕ includes show_int config.config)
