-- ===== src/Nginx/Blocks.antt =====
-- ext/lb/nginx/template.go: the blocks that the template prints for a host.
use interlock_old.Prelude.{String, not, [], ◌∷◌, ◌==◌, if◌then◌else◌}
use interlock_old.Prelude.Int.{ℤ}
use interlock_old.Go.Template.{Output, pieces, ◌⊕◌, lit, val, when, each}
use interlock_old.Routing.{ContextRoot}
use interlock_old.Nginx.{Host}

-- The block `if $host.SSLBackend`, which stands in each location of a host.
unfoldable pub pass_to : Host → Output
pass_to h =
    if h.ssl_backend
    then pieces (val "proxy_pass https://" h.upstream.name ∷ lit ";" ∷ [])
    else pieces (val "proxy_pass http://" h.upstream.name ∷ lit ";" ∷ [])

module _ (show_int : ℤ → String) where
  unfoldable pub root_location : Host → ContextRoot → Output
  unfolding when each
  root_location h root =
      pieces (lit "\n" ∷ lit "\t    " ∷ [])
      ⊕ when (not (root.path == "")) (
          pieces (lit "\n" ∷ val "\t    location " root.path ∷ lit " {\n" ∷ lit "\t\t" ∷ [])
          ⊕ when h.context_root_rewrite (
              pieces (
                lit "rewrite ^([^.]*[^/])$ $1/ permanent;\n"
                ∷ val "\t\trewrite  ^" root.path
                ∷ lit "/(.*)  /$1 break;"
                ∷ []))
          ⊕ pieces (
              lit "\n"
              ∷ val "\t\tproxy_pass http://ctx" root.name
              ∷ lit ";\n"
              ∷ lit "\t    }\n"
              ∷ lit "\t    "
              ∷ []))
      ⊕ pieces (lit "\n" ∷ lit "\t    " ∷ [])

  unfoldable pub root_upstream : Host → ContextRoot → Output
  unfolding when each
  root_upstream h root =
      pieces (
        lit "\n"
        ∷ val "    upstream ctx" root.name
        ∷ lit " {\n"
        ∷ val "        zone ctx" h.upstream.name
        ∷ lit "_backend 64k;\n"
        ∷ lit "\n"
        ∷ lit "        "
        ∷ [])
      ⊕ each (λ up. pieces (val "server " up.addr ∷ lit ";\n" ∷ lit "        " ∷ []))
          h.upstream.servers
      ⊕ pieces (lit "\n" ∷ lit "    }" ∷ [])

  unfoldable pub host_upstream : Host → Output
  unfolding when each
  host_upstream h =
      pieces (lit "\n" ∷ val "    upstream " h.upstream.name ∷ lit " {\n" ∷ lit "        " ∷ [])
      ⊕ (if h.ip_hash
          then (pieces (lit "ip_hash; " ∷ []))
          else (pieces (val "zone " h.upstream.name ∷ lit "_backend 64k;" ∷ [])))
      ⊕ pieces (lit "\n" ∷ lit "\n" ∷ lit "        " ∷ [])
      ⊕ each (λ up. pieces (val "server " up.addr ∷ lit ";\n" ∷ lit "        " ∷ []))
          h.upstream.servers
      ⊕ pieces (lit "\n" ∷ lit "    }\n" ∷ [])

  unfoldable pub host_server : Host → Output
  unfolding each pass_to
  host_server h =
      pieces (
        lit "    server {\n"
        ∷ val "        listen " (show_int h.port)
        ∷ lit ";\n"
        ∷ lit "\n"
        ∷ lit "        server_name"
        ∷ [])
      ⊕ each (λ name. pieces (val " " name ∷ [])) h.server_names
      ⊕ pieces (lit ";\n" ∷ lit "        " ∷ [])
      ⊕ (if h.ssl_only
          then (pieces (lit "return 302 https://$server_name$request_uri;" ∷ []))
          else (pieces (lit "\n" ∷ lit "        location / {\n" ∷ lit "            " ∷ [])
              ⊕ pass_to h
              ⊕ pieces (lit "\n" ∷ lit "        }\n" ∷ lit "\n" ∷ lit "        " ∷ [])
              ⊕ each
                  (λ ws.
                    pieces
                      (lit "\n" ∷ val "        location " ws ∷ lit " {\n" ∷ lit "            " ∷ [])
                    ⊕ pass_to h
                    ⊕ pieces (
                        lit "\n"
                        ∷ lit "            proxy_http_version 1.1;\n"
                        ∷ lit "            proxy_set_header Upgrade $http_upgrade;\n"
                        ∷ lit "            proxy_set_header Connection $connection_upgrade;\n"
                        ∷ lit "        }\n"
                        ∷ lit "\n"
                        ∷ lit "        location /nginx_status {\n"
                        ∷ lit "            stub_status on;\n"
                        ∷ lit "            access_log off;\n"
                        ∷ lit "        }\n"
                        ∷ lit "\n"
                        ∷ lit "        "
                        ∷ []))
                  h.websocket_endpoints
              ⊕ pieces (lit "\n" ∷ lit "        " ∷ [])))
      ⊕ pieces (lit "\n" ∷ lit "    }\n" ∷ lit "    " ∷ [])

  unfoldable pub ssl_server : Host → Output
  unfolding each pass_to
  ssl_server h =
      pieces (
        lit "\n"
        ∷ lit "    server {\n"
        ∷ val "        listen " (show_int h.ssl_port)
        ∷ lit ";\n"
        ∷ lit "        ssl on;\n"
        ∷ val "        ssl_certificate " h.ssl_cert
        ∷ lit ";\n"
        ∷ val "        ssl_certificate_key " h.ssl_cert_key
        ∷ lit ";\n"
        ∷ lit "        server_name"
        ∷ [])
      ⊕ each (λ name. pieces (val " " name ∷ [])) h.server_names
      ⊕ pieces (lit ";\n" ∷ lit "\n" ∷ lit "        location / {\n" ∷ lit "            " ∷ [])
      ⊕ pass_to h
      ⊕ pieces (lit "\n" ∷ lit "        }\n" ∷ lit "\n" ∷ lit "        " ∷ [])
      ⊕ each
          (λ ws.
            pieces (lit "\n" ∷ val "        location " ws ∷ lit " {\n" ∷ lit "            " ∷ [])
            ⊕ pass_to h
            ⊕ pieces (
                lit "\n"
                ∷ lit "            proxy_http_version 1.1;\n"
                ∷ lit "            proxy_set_header Upgrade $http_upgrade;\n"
                ∷ lit "            proxy_set_header Connection $connection_upgrade;\n"
                ∷ lit "        }\n"
                ∷ lit "\n"
                ∷ lit "        location /nginx_status {\n"
                ∷ lit "            stub_status on;\n"
                ∷ lit "            access_log off;\n"
                ∷ lit "        }\n"
                ∷ lit "        "
                ∷ []))
          h.websocket_endpoints
      ⊕ pieces (lit "\n" ∷ lit "    }\n" ∷ lit "    " ∷ [])

  -- A host under a context root, or a host with servers of its own, without and with SSL.
  unfoldable pub host_section : (Host → Output) → Host → ContextRoot → Output
  unfolding when root_upstream host_upstream ssl_server
  host_section server h root =
      pieces (lit "\n" ∷ lit "    " ∷ [])
      ⊕ (if not (root.path == "")
          then (root_upstream h root)
          else (host_upstream h
              ⊕ server h
              ⊕ when h.ssl (ssl_server h)
              ⊕ pieces (lit "\n" ∷ lit "\n" ∷ lit "    " ∷ [])))
      ⊕ pieces (lit " " ∷ lit "\n" ∷ lit "    " ∷ [])
