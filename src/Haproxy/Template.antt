-- ===== src/Haproxy/Template.antt =====
-- ext/lb/haproxy/template.go: the template of HAProxy's configuration, as the pieces that its execution
-- prints.
use interlock_old.Prelude.{String, not, [], ◌∷◌, ◌==◌, if◌then◌else◌}
use interlock_old.Prelude.Int.{ℤ}
use interlock_old.Go.Outcome.{Outcome, ok, ◌>>=◌}
use interlock_old.Go.Template.{Output, pieces, ◌⊕◌, lit, val, when, each, each_at}
use interlock_old.Config.{ExtensionConfig}
use interlock_old.Routing.{ContextRoot}
use interlock_old.Haproxy.{Host, Config}

module _ (show_int : ℤ → String) where
  -- `show_int` prints an integer.
  unfoldable pub global_section : ExtensionConfig → Output
  unfolding when each
  global_section cfg =
      pieces (
        lit "# managed by interlock\n"
        ∷ lit "global\n"
        ∷ lit "\tlog 127.0.0.1 local0\n"
        ∷ lit "\tlog 127.0.0.1 local1 notice\n"
        ∷ lit "    "
        ∷ [])
      ⊕ when (not (cfg.syslog_addr == ""))
          (pieces (val "log " cfg.syslog_addr ∷ lit " local0\n" ∷ lit "    log-send-hostname" ∷ []))
      ⊕ pieces (
          lit "\n"
          ∷ val "    maxconn " (show_int cfg.max_conn)
          ∷ lit "\n"
          ∷ val "    pidfile " cfg.pid_path
          ∷ lit "\n"
          ∷ val "    ssl-server-verify " cfg.ssl_server_verify
          ∷ lit "\n"
          ∷ val "    tune.ssl.default-dh-param " (show_int cfg.ssl_default_dh_param)
          ∷ lit "\n"
          ∷ lit "\n"
          ∷ [])

  unfoldable pub defaults_section : ExtensionConfig → Output
  defaults_section cfg = pieces (
      lit "defaults\n"
      ∷ lit "    mode http\n"
      ∷ lit "    retries 3\n"
      ∷ lit "    option redispatch\n"
      ∷ lit "    option httplog\n"
      ∷ lit "    option dontlognull\n"
      ∷ lit "    option http-server-close\n"
      ∷ lit "    option forwardfor\n"
      ∷ val "    timeout connect " (show_int cfg.connect_timeout)
      ∷ lit "\n"
      ∷ val "    timeout client " (show_int cfg.client_timeout)
      ∷ lit "\n"
      ∷ val "    timeout server " (show_int cfg.server_timeout)
      ∷ lit "\n"
      ∷ lit "\n"
      ∷ [])

  unfoldable pub frontend_section : ExtensionConfig → Output
  unfolding when each
  frontend_section cfg =
      pieces (
        lit "frontend http-default\n"
        ∷ val "    bind *:" (show_int cfg.port)
        ∷ lit "\n"
        ∷ lit "    "
        ∷ [])
      ⊕ when (not (cfg.ssl_cert == "")) (
          pieces (
            val "bind *:" (show_int cfg.ssl_port)
            ∷ val " ssl crt " cfg.ssl_cert
            ∷ val " " cfg.ssl_opts
            ∷ []))
      ⊕ pieces (lit "\n" ∷ lit "    monitor-uri /haproxy?monitor\n" ∷ lit "    " ∷ [])
      ⊕ when (not (cfg.admin_user == "")) (
          pieces (
            lit "stats realm Stats\n"
            ∷ val "    stats auth " cfg.admin_user
            ∷ val ":" cfg.admin_pass
            ∷ []))
      ⊕ pieces (
          lit "\n"
          ∷ lit "    stats enable\n"
          ∷ lit "    stats uri /haproxy?stats\n"
          ∷ lit "    stats refresh 5s\n"
          ∷ lit "    "
          ∷ [])

  unfoldable pub frontend_rules : Host → ContextRoot → Output
  unfolding when each
  frontend_rules h root =
      (if not (root.path == "")
        then (pieces (
            val "acl url" root.name
            ∷ val " path_beg " root.path
            ∷ lit "\n"
            ∷ val "    use_backend ctx" root.name
            ∷ val " if url" root.name
            ∷ []))
        else (pieces (
            lit "\n"
            ∷ val "    acl is_" h.name
            ∷ val " hdr_beg(host) " h.domain
            ∷ lit "\n"
            ∷ val "    use_backend " h.name
            ∷ val " if is_" h.name
            ∷ lit "\n"
            ∷ lit "    "
            ∷ [])))
      ⊕ pieces (lit "\n" ∷ lit "    " ∷ [])

  -- The head of a backend
  unfoldable pub backend_head : Host → ContextRoot → Output
  unfolding when each
  backend_head h root =
      (if not (root.path == "")
        then (pieces (
              val "backend ctx" root.name
              ∷ lit "\n"
              ∷ val "    acl missing_slash path_reg ^" root.path
              ∷ lit "[^/]*$\n"
              ∷ lit "    redirect code 301 prefix / drop-query append-slash if missing_slash\n"
              ∷ lit "    "
              ∷ [])
            ⊕ when h.context_root_rewrite
                (pieces (val "reqrep ^([^\\ :]*)\\ " root.path ∷ lit "/(.*)     \\1\\ /\\2" ∷ [])))
        else (pieces (lit "\n" ∷ val "    backend " h.name ∷ [])))

  -- The options of a backend
  unfoldable pub backend_body : Host → Output
  unfolding when each
  backend_body h =
      pieces (
        lit "\n"
        ∷ lit "    http-response add-header X-Request-Start %Ts.%ms\n"
        ∷ lit "    http-request set-header X-Forwarded-Port %[dst_port]\n"
        ∷ lit "    http-request add-header X-Forwarded-Proto https if { ssl_fc }\n"
        ∷ val "    balance " h.balance_algorithm
        ∷ lit "\n"
        ∷ lit "    "
        ∷ [])
      ⊕ each (λ option. pieces (val "option " option ∷ lit "\n" ∷ lit "    " ∷ []))
          h.backend_options
      ⊕ pieces (lit "\n" ∷ lit "    " ∷ [])
      ⊕ when (not (h.check == "")) (pieces (val "option " h.check ∷ []))
      ⊕ pieces (lit "\n" ∷ lit "    " ∷ [])
      ⊕ when h.ssl_only (pieces (lit "redirect scheme https code 301 if !{ ssl_fc }" ∷ []))
      ⊕ pieces (lit "\n" ∷ lit "\t" ∷ [])
      ⊕ when h.ssl_only (
          pieces (
            lit
              "http-response set-header Strict-Transport-Security \"max-age=16000000; includeSubDomains; preload;\""
            ∷ []))
      ⊕ pieces (lit "\n" ∷ lit "    " ∷ [])

  unfoldable pub backend_servers : Host → Output
  unfolding when each
  backend_servers h =
      each
        (λ up.
          pieces (
            val "server " up.container
            ∷ val " " up.addr
            ∷ val " check inter " (show_int up.check_interval)
            ∷ [])
          ⊕ when h.ssl_backend
              (pieces (val " ssl verify " h.ssl_backend_tls_verify ∷ lit " sni req.hdr(Host)" ∷ []))
          ⊕ pieces (lit "\n" ∷ lit "    " ∷ []))
        h.upstreams
      ⊕ pieces (lit "\n" ∷ [])

  unfoldable pub backend_section : Host → ContextRoot → Output
  unfolding backend_head backend_body backend_servers
  backend_section h root = backend_head h root ⊕ backend_body h ⊕ backend_servers h

  unfoldable pub haproxy_conf_template : Config → Outcome (Output)
  unfolding each_at global_section defaults_section frontend_section frontend_rules backend_section
  haproxy_conf_template config = do
    rules ← each_at (λ h. h.context_root) frontend_rules config.hosts
    backends ← each_at (λ h. h.context_root) backend_section config.hosts
    ok (
        global_section config.config
        ⊕ defaults_section config.config
        ⊕ frontend_section config.config
        ⊕ rules
        ⊕ pieces (lit "\n" ∷ lit "\n" ∷ [])
        ⊕ backends
        ⊕ pieces (lit "\n" ∷ []))
