-- ===== src/Nginx/Template.antt =====
-- ext/lb/nginx/template.go: the template of nginx's configuration, as the pieces that its execution prints.
pub mod Plus
use interlock_old.Prelude.{String, Bool, not, List, [], ◌∷◌, ◌==◌, if◌then◌else◌}
use interlock_old.Prelude.Int.{ℤ}
use interlock_old.Go.Outcome.{Outcome, ok, ◌>>=◌}
use interlock_old.Go.Template.{Output, pieces, ◌⊕◌, lit, val, when, each_at}
use interlock_old.Config.{ExtensionConfig}
use interlock_old.Routing.{ContextRoot}
use interlock_old.Nginx.{Config}
use interlock_old.Nginx.Blocks.{root_location, host_section, host_server}

module _ (show_int : ℤ → String) where
  -- `show_int` prints an integer. Up to the server of unknown hosts.
  unfoldable pub main_settings : ExtensionConfig → Output
  unfolding when
  main_settings cfg =
      pieces (
        lit "# managed by interlock\n"
        ∷ val "user  " cfg.user
        ∷ lit ";\n"
        ∷ val "worker_processes  " (show_int cfg.worker_processes)
        ∷ lit ";\n"
        ∷ val "worker_rlimit_nofile " (show_int cfg.rlimit_no_file)
        ∷ lit ";\n"
        ∷ lit "\n"
        ∷ lit "error_log  /var/log/error.log warn;\n"
        ∷ val "pid        " cfg.pid_path
        ∷ lit ";\n"
        ∷ lit "\n"
        ∷ lit "\n"
        ∷ lit "events {\n"
        ∷ val "    worker_connections  " (show_int cfg.max_conn)
        ∷ lit ";\n"
        ∷ lit "}\n"
        ∷ lit "\n"
        ∷ lit "\n"
        ∷ lit "http {\n"
        ∷ lit "    include       /etc/nginx/mime.types;\n"
        ∷ lit "    default_type  application/octet-stream;\n"
        ∷ lit "    server_names_hash_bucket_size 128;\n"
        ∷ lit "    client_max_body_size 2048M;\n"
        ∷ lit "\n"
        ∷ lit "    log_format  main  '$remote_addr - $remote_user [$time_local] \"$request\" '\n"
        ∷ lit "                      '$status $body_bytes_sent \"$http_referer\" '\n"
        ∷ lit "                      '\"$http_user_agent\" \"$http_x_forwarded_for\"';\n"
        ∷ lit "\n"
        ∷ lit "    access_log  /var/log/nginx/access.log  main;\n"
        ∷ lit "\n"
        ∷ lit "    sendfile        on;\n"
        ∷ lit "    #tcp_nopush     on;\n"
        ∷ lit "\n"
        ∷ lit "    keepalive_timeout  65;\n"
        ∷ lit "\n"
        ∷ lit "    # If we receive X-Forwarded-Proto, pass it through; otherwise, pass along the\n"
        ∷ lit "    # scheme used to connect to this server\n"
        ∷ lit "    map $http_x_forwarded_proto $proxy_x_forwarded_proto {\n"
        ∷ lit "      default $http_x_forwarded_proto;\n"
        ∷ lit "      ''      $scheme;\n"
        ∷ lit "    }\n"
        ∷ lit "\n"
        ∷ lit "    #gzip  on;\n"
        ∷ val "    proxy_connect_timeout " (show_int cfg.proxy_connect_timeout)
        ∷ lit ";\n"
        ∷ val "    proxy_send_timeout " (show_int cfg.proxy_send_timeout)
        ∷ lit ";\n"
        ∷ val "    proxy_read_timeout " (show_int cfg.proxy_read_timeout)
        ∷ lit ";\n"
        ∷ lit "    proxy_set_header        X-Real-IP         $remote_addr;\n"
        ∷ lit "    proxy_set_header        X-Forwarded-For   $proxy_add_x_forwarded_for;\n"
        ∷ lit "    proxy_set_header        X-Forwarded-Proto $proxy_x_forwarded_proto;\n"
        ∷ lit "    proxy_set_header        Host              $http_host;\n"
        ∷ val "    send_timeout " (show_int cfg.send_timeout)
        ∷ lit ";\n"
        ∷ lit "\n"
        ∷ lit "    # ssl\n"
        ∷ lit "    ssl_prefer_server_ciphers on;\n"
        ∷ val "    ssl_ciphers " cfg.ssl_ciphers
        ∷ lit ";\n"
        ∷ val "    ssl_protocols " cfg.ssl_protocols
        ∷ lit ";\n"
        ∷ lit "    "
        ∷ [])
      ⊕ when cfg.dh_param (pieces (val "ssl_dhparam " cfg.dh_param_path ∷ lit ";" ∷ []))
      ⊕ pieces (
          lit "\n"
          ∷ lit "\n"
          ∷ lit "    map $http_upgrade $connection_upgrade {\n"
          ∷ lit "        default upgrade;\n"
          ∷ lit "        ''      close;\n"
          ∷ lit "    }\n"
          ∷ lit "\n"
          ∷ [])

  -- The server of unknown hosts, up to the locations of the context roots.
  unfoldable pub default_server : ExtensionConfig → Output
  default_server cfg = pieces (
      lit "    # default host return 503\n"
      ∷ lit "    server {\n"
      ∷ val "            listen " (show_int cfg.port)
      ∷ lit ";\n"
      ∷ lit "            server_name _;\n"
      ∷ lit "\n"
      ∷ lit "            location / {\n"
      ∷ lit "                return 503;\n"
      ∷ lit "            }\n"
      ∷ lit "\n"
      ∷ lit "\t    "
      ∷ [])

  -- The end of the server of unknown hosts
  unfoldable pub default_end : Output
  default_end = pieces (
      lit "\n"
      ∷ lit "            location /nginx_status {\n"
      ∷ lit "                stub_status on;\n"
      ∷ lit "                access_log off;\n"
      ∷ lit "            }\n"
      ∷ lit "    }\n"
      ∷ lit "\n"
      ∷ lit "    "
      ∷ [])

  unfoldable pub includes : ExtensionConfig → Output
  includes cfg = pieces (
      lit " "
      ∷ lit "\n"
      ∷ lit "\n"
      ∷ val "    include " cfg.config_base_path
      ∷ lit "/conf.d/*.conf;\n"
      ∷ lit "}\n"
      ∷ [])

  unfoldable pub nginx_conf_template : Config → Outcome (Output)
  unfolding each_at main_settings default_server root_location default_end host_section host_server
      includes
  nginx_conf_template config = do
    locations ← each_at (λ h. h.context_root) (root_location show_int) config.hosts
    sections ←
        each_at (λ h. h.context_root) (host_section show_int (host_server show_int)) config.hosts
    ok (
        main_settings config.config
        ⊕ default_server config.config
        ⊕ locations
        ⊕ default_end
        ⊕ sections
        ⊕ includes config.config)
