-- ===== src/Tests/NginxRuns.antt =====
-- nginx's configuration for the sample host.
use mathlib.Core.List.{Perm, Permᴰ, reverse}
use interlock_old.Nginx.Order.{both, generate-Perm}
use interlock_old.Platform.{Platform, Container, ContainerJson}
use interlock_old.Tests.Samples.{listed}
use interlock_old.Prelude.{◌≡◌, refl, List, [], ◌∷◌, All, true, false, some, arith}
use interlock_old.Prelude.Int.{pos}
use interlock_old.Go.Outcome.{Outcome, ok, err, panic}
use interlock_old.Go.Maps.{lookup}
use interlock_old.Nginx.{Host, Config, generate_proxy_config}
use interlock_old.Nginx.Upstreams.{addrs_served}
use interlock_old.Nginx.Hosts.{
  servers_under, IsPrintable, HasDistinctUpstreams, generate-serves, generate-IsPrintable,
}
use interlock_old.Nginx.Totality.{IsSafe, generate-ok}
use interlock_old.Tests.Samples.{platform, extension, containers, generation}
use interlock_old.Tests.Addresses.{platform-Returns}

abbrev web_host : Host
web_host = record {
  server_names = "web.local" ∷ "www.local" ∷ [];
  port = pos 80;
  context_root = some (record { name = ""; path = "" });
  context_root_rewrite = false;
  ssl_port = pos 443;
  ssl = false;
  ssl_cert = "";
  ssl_cert_key = "";
  ssl_only = false;
  ssl_backend = false;
  upstream = record {
    name = "web.local";
    servers = record { addr = "10.0.0.9:32768" } ∷ record { addr = "172.18.0.2:80" } ∷ [];
  };
  websocket_endpoints = [];
  ip_hash = false;
}

abbrev pub web_config : Config
web_config = record {
  hosts = web_host ∷ [];
  config = extension "nginx";
  networks = ("blue", "") ∷ [];
}

pub generated : generate_proxy_config platform (extension "nginx") containers ≡ ok web_config
unfolding generate_proxy_config generation
generated = refl

generate-serves_example :
    servers_under "web.local" web_config.hosts
    ≡ addrs_served platform (extension "nginx") "web.local" containers
generate-serves_example =
    generate-serves platform (extension "nginx") containers web_config "web.local" generated

generate-IsPrintable_example :
    All (IsPrintable (extension "nginx")) web_config.hosts × HasDistinctUpstreams web_config.hosts
generate-IsPrintable_example =
    generate-IsPrintable platform (extension "nginx") containers web_config generated

containers-IsSafe : All (IsSafe platform) containers
unfolding lookup
containers-IsSafe = ((omega arith, λ u. cc (u.3)), ((omega arith, λ u. cc (u.3)), tt))

generate-ok_example :
    (config : Config) × (generate_proxy_config platform (extension "nginx") containers ≡ ok config)
generate-ok_example =
    generate-ok platform (extension "nginx") containers platform-Returns containers-IsSafe

-- The same containers, listed the other way round.
abbrev reversed : List Container
reversed = listed "bbbbbbbbbbbbbbbb" ∷ listed "aaaaaaaaaaaaaaaa" ∷ []

abbrev reversed_host : Host
reversed_host = record web_host {
  ssl_only = true;
  upstream = record {
    name = "web.local";
    servers = record { addr = "172.18.0.2:80" } ∷ record { addr = "10.0.0.9:32768" } ∷ [];
  };
}

abbrev reversed_config : Config
reversed_config = record web_config { hosts = reversed_host ∷ [] }

-- The same host when Go ranges over the ports in the other order.
abbrev shuffled : Outcome ContainerJson → Outcome ContainerJson
shuffled (ok info) =
    ok (record info { ports = reverse info.ports; ports_again = reverse info.ports_again })
shuffled (err e) = err e
shuffled panic = panic

abbrev later_platform : Platform
later_platform = record platform {
  container_inspect = λ id. shuffled (platform.container_inspect id);
}

reversed_generated :
    generate_proxy_config later_platform (extension "nginx") reversed ≡ ok reversed_config
unfolding generate_proxy_config generation
reversed_generated = refl

generate-Perm_example :
    Perm
      (servers_under "web.local" web_config.hosts)
      (servers_under "web.local" reversed_config.hosts)
unfolding generation
generate-Perm_example =
    generate-Perm platform later_platform (extension "nginx") "web.local" web_config reversed_config
      (Permᴰ.swap refl refl) (both _ _ refl refl, (both _ _ refl refl, tt)) generated
      reversed_generated
