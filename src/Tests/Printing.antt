-- ===== src/Tests/Printing.antt =====
-- What the templates print for the small Docker host.
use interlock_old.Prelude.{◌≡◌, String}
use interlock_old.Prelude.Int.{ℤ}
use interlock_old.Go.Outcome.{ok}
use interlock_old.Go.Template.{Output}
use interlock_old.Nginx.Template.{nginx_conf_template}
use interlock_old.Nginx.Template.Plus.{nginx_plus_conf_template}
use interlock_old.Nginx.Declared as NginxDeclared
use interlock_old.Nginx.Printed.{nginx-prints}
use interlock_old.Haproxy.Template.{haproxy_conf_template}
use interlock_old.Haproxy.Declared as HaproxyDeclared
use interlock_old.Haproxy.Declared.{haproxy-prints}
use interlock_old.Tests.Samples.{platform, extension, containers}
use interlock_old.Tests.NginxRuns
use interlock_old.Tests.HaproxyRuns

abbrev show_int : ℤ → String
show_int n = "80"

nginx-prints_example :
    ((o : Output) × (nginx_conf_template show_int NginxRuns.web_config ≡ ok o)
      × NginxDeclared.IsDeclared o)
    × ((o : Output) × (nginx_plus_conf_template show_int NginxRuns.web_config ≡ ok o)
        × NginxDeclared.IsDeclared o)
nginx-prints_example =
    nginx-prints show_int platform (extension "nginx") containers NginxRuns.web_config
      NginxRuns.generated

haproxy-prints_example :
    (o : Output) × (haproxy_conf_template show_int HaproxyRuns.web_config ≡ ok o)
    × HaproxyDeclared.IsDeclared o
haproxy-prints_example =
    haproxy-prints show_int platform (extension "haproxy") containers HaproxyRuns.web_config
      HaproxyRuns.generated
