-- ===== src/LoadBalancer/Templates.antt =====
-- Template of ext/lb/nginx/nginx.go and ext/lb/haproxy/haproxy.go, with its execution in SaveConfig.
use interlock_old.Prelude.{String, ◌==◌, if◌then◌else◌}
use interlock_old.Prelude.Int.{ℤ}
use interlock_old.Go.Outcome.{Outcome, ok, err, panic, ◌>>=◌}
use interlock_old.Go.Template.{text_of}
use interlock_old.Config.{ExtensionConfig}
use interlock_old.Nginx
use interlock_old.Nginx.Template.{nginx_conf_template}
use interlock_old.Nginx.Template.Plus.{nginx_plus_conf_template}
use interlock_old.Haproxy
use interlock_old.Haproxy.Template.{haproxy_conf_template}

-- The text of a template's file; of an error, its message.
unfoldable pub file_template : Outcome String → Outcome String
file_template (ok text) = ok text
file_template (err e) = ok e
file_template panic = panic

-- `show_int` prints an integer, `read_file` is ioutil.ReadFile, and `execute` parses and executes a
-- template that is no part of the program.
module _ (show_int : ℤ → String) (read_file : String → Outcome String) where
  unfoldable pub nginx_render :
      (String → Nginx.Config → Outcome String) → ExtensionConfig → Nginx.Config → Outcome String
  unfolding file_template nginx_conf_template nginx_plus_conf_template text_of
  nginx_render execute cfg config =
      if cfg.template_path == ""
      then (if cfg.nginx_plus_enabled
          then (do o ← nginx_plus_conf_template show_int config; ok (text_of o))
          else (do o ← nginx_conf_template show_int config; ok (text_of o)))
      else (do text ← file_template (read_file cfg.template_path); execute text config)

  unfoldable pub haproxy_render :
      (String → Haproxy.Config → Outcome String) → ExtensionConfig → Haproxy.Config → Outcome String
  unfolding file_template haproxy_conf_template text_of
  haproxy_render execute cfg config =
      if cfg.template_path == ""
      then (do o ← haproxy_conf_template show_int config; ok (text_of o))
      else (do text ← file_template (read_file cfg.template_path); execute text config)
