-- ===== src/Tests/Configs.antt =====
-- config/utils.go.
use interlock_old.Prelude.{String, ◌≡◌, refl, [], ◌∷◌, true, false, ◌==◌, if◌then◌else◌}
use interlock_old.Prelude.Int.{pos}
use interlock_old.Go.Outcome.{Outcome, ok, err}
use interlock_old.Config.{
  Config, or_int, set_nginx_config_defaults, set_config_defaults, parse_config,
}
use interlock_old.Config.Defaults.{IsLoaded, parse_config_lem}
use interlock_old.Tests.Samples.{extension}

nginx_timeout : (set_config_defaults (extension "nginx")).send_timeout ≡ pos 600
unfolding set_config_defaults set_nginx_config_defaults or_int
nginx_timeout = refl

abbrev pub raw : Config
raw = record {
  listen_addr = ":8080";
  docker_url = "";
  tls_ca_cert = "";
  tls_cert = "";
  tls_key = "";
  allow_insecure = false;
  enable_metrics = true;
  poll_interval = "3s";
  extensions = extension "nginx" ∷ extension "beacon" ∷ [];
  rules = [];
}

abbrev decode : String → Outcome Config
decode text = if text == "" then err "empty" else ok raw

parse_config_lem_example :
    (cfg : Config) × (parse_config decode "x" ≡ ok cfg)
    × IsLoaded raw.rules raw.extensions cfg.extensions
    × (record cfg { extensions = raw.extensions } ≡ raw)
parse_config_lem_example = parse_config_lem decode "x" raw refl
