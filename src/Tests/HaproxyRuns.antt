-- ===== src/Tests/HaproxyRuns.antt =====
-- HAProxy's configuration for the sample host.
use interlock_old.Prelude.{String, ◌≡◌, refl, [], ◌∷◌, All, false, some}
use interlock_old.Prelude.Int.{pos}
use interlock_old.Go.Outcome.{ok}
use interlock_old.Haproxy.{Upstream, Host, Config, generate_proxy_config}
use interlock_old.Haproxy.Upstreams.{entries_served}
use interlock_old.Haproxy.Hosts.{
  upstreams_under, IsInspected, IsPrintable, HasDistinctDomains, haproxy_serves,
  haproxy-IsPrintable,
}
use interlock_old.Haproxy.Registered.{settings_of, no_settings}
use interlock_old.Haproxy.Settings.{HasSettings, generate-HasSettings}
use interlock_old.Tests.Samples.{platform, extension, containers, generation}

abbrev pub web_upstream : String → Upstream
web_upstream addr = record { container = "web"; addr = addr; check_interval = pos 5000 }

abbrev pub web_host : Host
web_host = record {
  name = "web_local";
  context_root = some (record { name = ""; path = "" });
  context_root_rewrite = false;
  domain = "web.local";
  check = "httpchk";
  backend_options = [];
  upstreams = web_upstream "10.0.0.9:32768" ∷ web_upstream "172.18.0.2:80" ∷ [];
  ssl_only = false;
  ssl_backend = false;
  ssl_backend_tls_verify = "none";
  balance_algorithm = "leastconn";
}

-- The host of an alias has no settings, and so no balance algorithm.
abbrev pub alias_host : Host
alias_host = record {
  name = "www_local";
  context_root = some (record { name = ""; path = "" });
  context_root_rewrite = false;
  domain = "www.local";
  check = "";
  backend_options = [];
  upstreams = web_upstream "172.18.0.2:80" ∷ [];
  ssl_only = false;
  ssl_backend = false;
  ssl_backend_tls_verify = "";
  balance_algorithm = "";
}

abbrev pub web_config : Config
web_config = record {
  hosts = web_host ∷ alias_host ∷ [];
  config = extension "haproxy";
  networks = ("blue", "") ∷ [];
}

pub generated : generate_proxy_config platform (extension "haproxy") containers ≡ ok web_config
unfolding generate_proxy_config generation
generated = refl

haproxy_serves_example :
    upstreams_under "www.local" web_config.hosts
    ≡ entries_served platform (extension "haproxy") "www.local" containers
haproxy_serves_example =
    haproxy_serves platform (extension "haproxy") containers web_config "www.local" generated

haproxy-IsPrintable_example :
    All (IsInspected platform) containers
    × All IsPrintable web_config.hosts
    × HasDistinctDomains web_config.hosts
haproxy-IsPrintable_example =
    haproxy-IsPrintable platform (extension "haproxy") containers web_config generated

generate-HasSettings_example :
    All (λ h. HasSettings h (settings_of h.domain platform containers no_settings)) web_config.hosts
generate-HasSettings_example =
    generate-HasSettings platform (extension "haproxy") containers web_config generated
