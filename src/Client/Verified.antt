-- ===== src/Client/Verified.antt =====
-- The kind of a connection, and whether the engine's certificate is verified.
use interlock_old.Prelude.{◌≡◌, ◌≢◌, Option, refl, ◌⊎◌, String, Bool, true, false, none, some, ◌==◌}
use interlock_old.Go.Outcome.{Outcome, ok}
use interlock_old.Go.FilePath.{join}
use interlock_old.Client.{
  Environment, TlsConfig, Paths, get_tls_config, load_tls, tls_settings, get_docker_client,
}

abbrev from_environment : Environment → Paths
from_environment env = record {
  ca_cert = join env.docker_cert_path "ca.pem";
  cert = join env.docker_cert_path "cert.pem";
  key = join env.docker_cert_path "key.pem";
}

module _ {KeyPair : Type 0} (x509_key_pair : String → String → Outcome KeyPair)
    (read_file : String → Outcome String) (version : String) where
  -- AllowInsecure has no effect on the connection.
  get_docker_client-insecure :
      (env : Environment) (url : String) (p : Paths) (a b : Bool)
      → get_docker_client x509_key_pair read_file version env url p a
        ≡ get_docker_client x509_key_pair read_file version env url p b
  unfolding get_docker_client tls_settings load_tls get_tls_config
  get_docker_client-insecure env url p true true = refl
  get_docker_client-insecure env url p true false = refl
  get_docker_client-insecure env url p false true = refl
  get_docker_client-insecure env url p false false = refl

  -- A connection that a call makes.
  pub data Connects (env : Environment) (p : Paths) : Option (TlsConfig KeyPair) → Type 0 where
    by_environment :
        (cfg : TlsConfig KeyPair)
        → p.ca_cert ≡ ""
        → env.docker_cert_path ≢ ""
        → env.docker_tls_verify ≢ ""
        → read_file (join env.docker_cert_path "ca.pem") ≡ ok cfg.root_cas
        → cfg.insecure_skip_verify ≡ false
        → Connects env p (some cfg)
    by_paths :
        (cfg : TlsConfig KeyPair)
        → p.ca_cert ≢ ""
        → p.cert ≢ ""
        → p.key ≢ ""
        → read_file p.ca_cert ≡ ok cfg.root_cas
        → cfg.insecure_skip_verify ≡ (env.docker_tls_verify == "")
        → Connects env p (some cfg)
    plain :
        (p.ca_cert ≡ "") ⊎ (p.cert ≡ "") ⊎ (p.key ≡ "")
        → (p.ca_cert ≢ "") ⊎ (env.docker_cert_path ≡ "") ⊎ (env.docker_tls_verify ≡ "")
        → Connects env p none
