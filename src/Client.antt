-- ===== src/Client.antt =====
-- client/dockerclient.go: the connection to the Docker engine.
pub mod Verified
use interlock_old.Prelude.{
  String, ◌<>◌, Bool, true, false, ◌&&◌, not, Option, none, some, ◌==◌, if◌then◌else◌,
}
use interlock_old.Go.Outcome.{Outcome, ok, err, panic, ◌>>=◌}
use interlock_old.Go.FilePath.{join}

-- The environment variables that the code reads.
pub record Environment : Type 0 where
  pub docker_host : String
  pub docker_cert_path : String
  pub docker_tls_verify : String

-- tls.Config, as the code fills it: the roots in PEM and the key pair
pub record TlsConfig (KeyPair : Type 0) : Type 0 where
  pub insecure_skip_verify : Bool
  pub root_cas : String
  pub certificate : Option KeyPair

-- The paths of the certificates; empty where they are not set.
pub record Paths : Type 0 where
  pub ca_cert : String
  pub cert : String
  pub key : String

-- What NewClient is given.
pub record Settings (KeyPair : Type 0) : Type 0 where
  pub url : String
  pub api_version : String
  pub user_agent : String
  pub tls : Option (TlsConfig KeyPair)

unfoldable pub docker_url_of : Environment → String → String
docker_url_of env url = if url == "" && not (env.docker_host == "") then env.docker_host else url

-- The paths are those of the environment only if no CA is set and both variables are.
unfoldable pub paths_of : Environment → Paths → Paths
unfolding join
paths_of env p =
    if p.ca_cert == "" && (not (env.docker_cert_path == "") && not (env.docker_tls_verify == ""))
    then record {
      ca_cert = join env.docker_cert_path "ca.pem";
      cert = join env.docker_cert_path "cert.pem";
      key = join env.docker_cert_path "key.pem";
    }
    else p

unfoldable pub uses_tls : Paths → Bool
uses_tls p = not (p.ca_cert == "") && (not (p.cert == "") && not (p.key == ""))

module _ {KeyPair : Type 0} (x509_key_pair : String → String → Outcome KeyPair)
    (read_file : String → Outcome String) (version : String) where
  -- tls.X509KeyPair and ioutil.ReadFile are parameters.
  unfoldable pub get_tls_config : String → String → String → Bool → Outcome (TlsConfig KeyPair)
  get_tls_config ca_cert cert key allow_insecure = do
    pair ← x509_key_pair cert key
    ok (record {
      insecure_skip_verify = if allow_insecure then true else true;
      root_cas = ca_cert;
      certificate = some pair;
    })

  -- The error of a file or of the certificates ends the program.
  unfoldable pub load_tls : Environment → Paths → Bool → Outcome (TlsConfig KeyPair)
  unfolding get_tls_config
  load_tls env p allow_insecure = do
    ca_cert ← read_file p.ca_cert
    cert ← read_file p.cert
    key ← read_file p.key
    cfg ← get_tls_config ca_cert cert key allow_insecure
    ok (record cfg { insecure_skip_verify = env.docker_tls_verify == "" })

  unfoldable pub tls_settings : Environment → Paths → Bool → Outcome (Option (TlsConfig KeyPair))
  unfolding uses_tls load_tls
  tls_settings env p allow_insecure =
      if uses_tls p then (do cfg ← load_tls env p allow_insecure; ok (some cfg)) else ok none

  unfoldable pub get_docker_client :
      Environment → String → Paths → Bool → Outcome (Settings KeyPair)
  unfolding docker_url_of paths_of tls_settings
  get_docker_client env url p allow_insecure = do
    tls ← tls_settings env (paths_of env p) allow_insecure
    ok (record {
      url = docker_url_of env url;
      api_version = "1.21";
      user_agent = "interlock-" <> version;
      tls = tls;
    })
