-- ===== src/Config/Defaults.antt =====
-- What the defaults of config/utils.go change, and what they leave.
use interlock_old.Prelude.{
  String, ◌≡◌, ◌≢◌, refl, List, [], ◌∷◌, arith, ◌==◌, eq_iff, Bool-cases, inl, inr, ◌⊎◌,
}
use interlock_old.Prelude.Int.{ℤ, pos}
use interlock_old.Go.Maps.{Map}
use interlock_old.Go.Outcome.{Outcome, ok}
use interlock_old.Config.{
  Rule, ExtensionConfig, Config, or_int, or_text, set_haproxy_config_defaults,
  set_nginx_config_defaults, set_beacon_config_defaults, set_config_defaults, set_all_defaults,
  parse_config,
}

or_int_idem : (x d : ℤ) → or_int (or_int x d) d ≡ or_int x d
unfolding or_int
or_int_idem x d = ground arith

or_text_idem : (s d : String) → or_text (or_text s d) d ≡ or_text s d
unfolding or_text
or_text_idem s d = ground arith

ruleset idem_laws = (or_int_idem, or_text_idem)

-- Setting the defaults a second time changes nothing.
set_config_defaults_idem :
    (c : ExtensionConfig) → set_config_defaults (set_config_defaults c) ≡ set_config_defaults c
unfolding set_config_defaults set_haproxy_config_defaults set_nginx_config_defaults
    set_beacon_config_defaults
set_config_defaults_idem c = elim (Bool-cases (c.name == "haproxy")) [
  | inl haproxy ↦ rw (haproxy, haproxy) (simp idem_laws)
  | inr h ↦ elim (Bool-cases (c.name == "nginx")) [
    | inl nginx ↦ rw (h, nginx, h, nginx) (simp idem_laws)
    | inr n ↦ elim (Bool-cases (c.name == "beacon")) [
      | inl beacon ↦ rw (h, n, beacon, h, n, beacon) (simp idem_laws)
      | inr b ↦ rw (h, n, b, h, n, b) (simp idem_laws)
    ]
  ]
]

-- An entry that is set is kept, and a missing one is the default.
abbrev pub IsFilled : ℤ → ℤ → ℤ → Type 0
IsFilled d x y = ((x ≢ pos 0) × (y ≡ x)) ⊎ ((x ≡ pos 0) × (y ≡ d))

abbrev pub IsFilledText : String → String → String → Type 0
IsFilledText d s t = ((s ≢ "") × (t ≡ s)) ⊎ ((s ≡ "") × (t ≡ d))

pub record IsHaproxyFilled (c d : ExtensionConfig) : Type 0 where
  pub name : c.name ≡ "haproxy"
  pub connect_timeout : IsFilled (pos 5000) c.connect_timeout d.connect_timeout
  pub server_timeout : IsFilled (pos 10000) c.server_timeout d.server_timeout
  pub client_timeout : IsFilled (pos 10000) c.client_timeout d.client_timeout
  pub admin_user : IsFilledText "admin" c.admin_user d.admin_user
  pub dh_param : IsFilled (pos 1024) c.ssl_default_dh_param d.ssl_default_dh_param
  pub server_verify : IsFilledText "required" c.ssl_server_verify d.ssl_server_verify
  pub others :
      record d {
        max_conn = c.max_conn;
        port = c.port;
        rules = c.rules;
        connect_timeout = c.connect_timeout;
        server_timeout = c.server_timeout;
        client_timeout = c.client_timeout;
        admin_user = c.admin_user;
        admin_pass = c.admin_pass;
        ssl_default_dh_param = c.ssl_default_dh_param;
        ssl_server_verify = c.ssl_server_verify;
      }
      ≡ c

pub record IsNginxFilled (c d : ExtensionConfig) : Type 0 where
  pub name : c.name ≡ "nginx"
  pub user : IsFilledText "www-data" c.user d.user
  pub workers : IsFilled (pos 2) c.worker_processes d.worker_processes
  pub files : IsFilled (pos 65535) c.rlimit_no_file d.rlimit_no_file
  pub proxy_connect : IsFilled (pos 600) c.proxy_connect_timeout d.proxy_connect_timeout
  pub proxy_send : IsFilled (pos 600) c.proxy_send_timeout d.proxy_send_timeout
  pub proxy_read : IsFilled (pos 600) c.proxy_read_timeout d.proxy_read_timeout
  pub send_timeout : IsFilled (pos 600) c.send_timeout d.send_timeout
  pub ciphers : IsFilledText "HIGH:!aNULL:!MD5" c.ssl_ciphers d.ssl_ciphers
  pub protocols : IsFilledText "SSLv3 TLSv1 TLSv1.1 TLSv1.2" c.ssl_protocols d.ssl_protocols
  pub others :
      record d {
        max_conn = c.max_conn;
        port = c.port;
        rules = c.rules;
        user = c.user;
        worker_processes = c.worker_processes;
        rlimit_no_file = c.rlimit_no_file;
        proxy_connect_timeout = c.proxy_connect_timeout;
        proxy_send_timeout = c.proxy_send_timeout;
        proxy_read_timeout = c.proxy_read_timeout;
        send_timeout = c.send_timeout;
        ssl_ciphers = c.ssl_ciphers;
        ssl_protocols = c.ssl_protocols;
      }
      ≡ c

pub record IsBeaconFilled (c d : ExtensionConfig) : Type 0 where
  pub name : c.name ≡ "beacon"
  pub interval : IsFilledText "30s" c.stats_interval d.stats_interval
  pub precision : IsFilledText "s" c.stats_influxdb_precision d.stats_influxdb_precision
  pub others :
      record d {
        max_conn = c.max_conn;
        port = c.port;
        rules = c.rules;
        stats_interval = c.stats_interval;
        stats_influxdb_precision = c.stats_influxdb_precision;
      }
      ≡ c

pub record IsOtherExtension (c d : ExtensionConfig) : Type 0 where
  pub haproxy : c.name ≢ "haproxy"
  pub nginx : c.name ≢ "nginx"
  pub beacon : c.name ≢ "beacon"
  pub others : record d { max_conn = c.max_conn; port = c.port; rules = c.rules } ≡ c

abbrev pub IsNamedFilled : ExtensionConfig → ExtensionConfig → Type 0
IsNamedFilled c d =
    IsHaproxyFilled c d ⊎ IsNginxFilled c d ⊎ IsBeaconFilled c d ⊎ IsOtherExtension c d

-- How an extension's configuration relates to what the defaults make of it: every entry that the
-- extension has a default for is filled, and the other entries, less the rules, are left alone.
pub record AreDefaultsOf (c d : ExtensionConfig) : Type 0 where
  pub name : d.name ≡ c.name
  pub config_path : d.config_path ≡ c.config_path
  pub template_path : d.template_path ≡ c.template_path
  pub ssl_port : d.ssl_port ≡ c.ssl_port
  pub ssl_cert_path : d.ssl_cert_path ≡ c.ssl_cert_path
  pub admin_pass : d.admin_pass ≡ c.admin_pass
  pub override : d.backend_override_address ≡ c.backend_override_address
  pub max_conn : IsFilled (pos 1024) c.max_conn d.max_conn
  pub port : IsFilled (pos 80) c.port d.port
  pub named : IsNamedFilled c d

or_int-IsFilled : (x d : ℤ) → IsFilled d x (or_int x d)
unfolding or_int
or_int-IsFilled x d = ground arith

or_text-IsFilledText : (s d : String) → IsFilledText d s (or_text s d)
unfolding or_text
or_text-IsFilledText s d = ground (arith, eq_iff s "")

or_text_empty : (s : String) → or_text s "" ≡ s
unfolding or_text
or_text_empty s = ground (arith, eq_iff s "")

module _ (c : ExtensionConfig) where
  -- Every entry with a default, of the named extension or common to all, is kept if it is set and
  -- filled if it is missing; paths, ports and the password without default stay as they are.
  pub set_config_defaults-AreDefaultsOf : AreDefaultsOf c (set_config_defaults c)
  unfolding set_config_defaults set_haproxy_config_defaults set_nginx_config_defaults
      set_beacon_config_defaults
  set_config_defaults-AreDefaultsOf = elim (Bool-cases (c.name == "haproxy")) [
    | inl haproxy ↦ rw haproxy (
        ground (
          arith,
          or_int-IsFilled c.max_conn (pos 1024),
          or_int-IsFilled c.port (pos 80),
          eq_iff c.name "haproxy",
          eq_iff c.name "nginx",
          eq_iff c.name "beacon",
          or_int-IsFilled c.connect_timeout (pos 5000),
          or_int-IsFilled c.server_timeout (pos 10000),
          or_int-IsFilled c.client_timeout (pos 10000),
          or_text-IsFilledText c.admin_user "admin",
          or_text_empty c.admin_pass,
          or_int-IsFilled c.ssl_default_dh_param (pos 1024),
          or_text-IsFilledText c.ssl_server_verify "required",
        ))
    | inr h ↦ elim (Bool-cases (c.name == "nginx")) [
      | inl nginx ↦
          rw (h, nginx)
            (ground (
              arith,
              or_int-IsFilled c.max_conn (pos 1024),
              or_int-IsFilled c.port (pos 80),
              eq_iff c.name "haproxy",
              eq_iff c.name "nginx",
              eq_iff c.name "beacon",
              or_text-IsFilledText c.user "www-data",
              or_int-IsFilled c.worker_processes (pos 2),
              or_int-IsFilled c.rlimit_no_file (pos 65535),
              or_int-IsFilled c.proxy_connect_timeout (pos 600),
              or_int-IsFilled c.proxy_send_timeout (pos 600),
              or_int-IsFilled c.proxy_read_timeout (pos 600),
              or_int-IsFilled c.send_timeout (pos 600),
              or_text-IsFilledText c.ssl_ciphers "HIGH:!aNULL:!MD5",
              or_text-IsFilledText c.ssl_protocols "SSLv3 TLSv1 TLSv1.1 TLSv1.2",
            ))
      | inr n ↦ elim (Bool-cases (c.name == "beacon")) [
        | inl beacon ↦
            rw (h, n, beacon)
              (ground (
                arith,
                or_int-IsFilled c.max_conn (pos 1024),
                or_int-IsFilled c.port (pos 80),
                eq_iff c.name "haproxy",
                eq_iff c.name "nginx",
                eq_iff c.name "beacon",
                or_text-IsFilledText c.stats_interval "30s",
                or_text-IsFilledText c.stats_influxdb_precision "s",
              ))
        | inr b ↦
            rw (h, n, b)
              (ground (
                arith,
                or_int-IsFilled c.max_conn (pos 1024),
                or_int-IsFilled c.port (pos 80),
                eq_iff c.name "haproxy",
                eq_iff c.name "nginx",
                eq_iff c.name "beacon",
              ))
      ]
    ]
  ]

-- What ParseConfig promises of the extension `d` at the place where the file has `c`.
abbrev pub IsLoaded : Map Rule → List ExtensionConfig → List ExtensionConfig → Type 0
IsLoaded rules [] [] = Unit
IsLoaded rules [] (d ∷ ds) = ⊥
IsLoaded rules (c ∷ cs) [] = ⊥
IsLoaded rules (c ∷ cs) (d ∷ ds) = AreDefaultsOf c d × (d.rules ≡ rules) × IsLoaded rules cs ds

set_all_defaults-IsLoaded :
    (rules : Map Rule) (exts : List ExtensionConfig)
    → IsLoaded rules exts (set_all_defaults rules exts)
unfolding set_all_defaults
set_all_defaults-IsLoaded rules [] = tt
set_all_defaults-IsLoaded rules (c ∷ cs) =
    let h = set_config_defaults-AreDefaultsOf c in
    (ground arith, refl, set_all_defaults-IsLoaded rules cs)

-- A configuration that decodes is loaded. Its extensions are those decoded, in order: each of the entries
-- that has a default, common to all or of the extension's name, is kept if it is set and is that
-- default if it is missing, the rules are those of the whole configuration, and all other entries of
-- the extension are as decoded. So are all other entries of the configuration.
pub parse_config_lem :
    (decode : String → Outcome Config) (text : String) (raw : Config)
    → decode text ≡ ok raw
    → (cfg : Config) × (parse_config decode text ≡ ok cfg)
      × IsLoaded raw.rules raw.extensions cfg.extensions
      × (record cfg { extensions = raw.extensions } ≡ raw)
unfolding parse_config
parse_config_lem decode text raw h = (
  record raw { extensions = set_all_defaults raw.rules raw.extensions },
  rw h,
  set_all_defaults-IsLoaded raw.rules raw.extensions,
  refl,
)
