-- ===== src/Tests/Commands.antt =====
-- The command line, the connection to the engine, and the ID of the container.
use interlock_old.Prelude.{◌≡◌, ◌≢◌, refl, inl, false, [], ◌∷◌, ◌++◌, some}
use interlock_old.Go.Outcome.{ok, err}
use interlock_old.Go.Text.{trim_space}
use interlock_old.Command.{default_config, Store, Arguments, Outside, config_text}
use interlock_old.Command.Source.{ComesFrom, config_text-ComesFrom}
use interlock_old.Client.{Environment, Paths, Settings}
use interlock_old.NodeId.{id_in, get_container_id}
use interlock_old.NodeId.Found.{docker_line, IsPlain, get_container_id-docker_line}

abbrev store : Store
store = record { exists = λ key. ok false; get = λ key. err "missing" }

abbrev outside : Outside (Unit {0})
outside = record {
  parse_url = λ text. ok ("consul", "10.0.0.1");
  tls_client = λ ca cert key. ok tt;
  new_store = λ kind host tls. ok store;
  read_file = λ path. err "no such file";
}

abbrev arguments : Arguments
arguments = record {
  env_config = "PollInterval = \"3s\"";
  config = "/etc/interlock/config.toml";
  discovery = "consul://10.0.0.1";
  discovery_tls_ca_cert = "";
  discovery_tls_cert = "";
  discovery_tls_key = "";
}

config_text-ComesFrom_example : ComesFrom outside arguments default_config × (default_config ≢ "")
unfolding config_text
config_text-ComesFrom_example = config_text-ComesFrom outside arguments default_config refl

abbrev environment : Environment
environment = record { docker_host = ""; docker_cert_path = "/certs"; docker_tls_verify = "1" }

abbrev no_paths : Paths
no_paths = record { ca_cert = ""; cert = ""; key = "" }

abbrev connected : Settings (Unit {0})
connected = record {
  url = "";
  api_version = "1.21";
  user_agent = "interlock-1.4.0";
  tls =
      some (record {
        insecure_skip_verify = false;
        root_cas = "/certs/ca.pem";
        certificate = some tt;
      });
}

plain : IsPlain "9" "cpu" "ab12"
plain = record {
  hierarchy_plain = (refl, tt);
  controllers_plain = (refl, (refl, (refl, tt)));
  id_plain = (refl, (refl, (refl, (refl, tt))));
  path_plain = (
    refl,
    (refl, (refl, (refl, (refl, (refl, (refl, (refl, (refl, (refl, (refl, (refl, tt))))))))))),
  );
}

get_container_id-docker_line_example :
    get_container_id (ok (("0::/" ∷ []) ++ docker_line "9" "cpu" "ab12" ∷ [])) (err "")
    ≡ ok (trim_space "ab12")
unfolding id_in
get_container_id-docker_line_example =
    get_container_id-docker_line ("0::/" ∷ []) [] "9" "cpu" "ab12" (err "") (inl refl, tt) plain
      (λ e. cc e)
