-- ===== src/Nginx/Printed.antt =====
-- A generated configuration is always printed, and passes requests to declared upstreams alone.
use interlock_old.Prelude.{◌≡◌, refl, String, List, All, All-imp, some}
use interlock_old.Prelude.Int.{ℤ}
use interlock_old.Go.Outcome.{ok, >>=-eq-ok, ok-injective}
use interlock_old.Go.Text.{contains}
use interlock_old.Go.Template.{Output, ◌⊕◌, each_at}
use interlock_old.Go.Template.Scan.{AllNames, AllNames-join, AllNames-when, each_at-ok}
use interlock_old.Config.{ExtensionConfig}
use interlock_old.Platform.{Platform, Container}
use interlock_old.Routing.{ContextRoot}
use interlock_old.Nginx.{Config, generate_proxy_config}
use interlock_old.Nginx.Hosts.{generate-IsPrintable}
use interlock_old.Nginx.Blocks.{root_location, host_server, host_section}
use interlock_old.Nginx.Template.{
  main_settings, default_server, default_end, includes, nginx_conf_template,
}
use interlock_old.Nginx.Template.Plus.{
  plus_server, plus_end, plus_host_server, nginx_plus_conf_template,
}
use interlock_old.Nginx.Proxied.{proxy_target, host_server-targets, plus_host_server-targets}
use interlock_old.Nginx.Declared.{IsDeclared, IsDeclared-same, template-IsDeclared}

module _ (show_int : ℤ → String) where
  module _ {P : String → Type 0} (cfg : ExtensionConfig) where
    main_settings-targets : AllNames proxy_target P (main_settings show_int cfg)
    unfolding main_settings proxy_target contains
    main_settings-targets =
        AllNames-join proxy_target (record { holds = tt })
          (AllNames-join proxy_target
            (AllNames-when proxy_target cfg.dh_param (record { holds = tt }))
            (record { holds = tt }))

    default_server-targets : AllNames proxy_target P (default_server show_int cfg)
    unfolding default_server proxy_target contains
    default_server-targets = record { holds = tt }

    plus_server-targets : AllNames proxy_target P (plus_server show_int cfg)
    unfolding plus_server proxy_target contains
    plus_server-targets = record { holds = tt }

    default_end-targets : AllNames proxy_target P (default_end show_int)
    unfolding default_end
    default_end-targets = record { holds = tt }

    plus_end-targets : AllNames proxy_target P (plus_end show_int)
    unfolding plus_end
    plus_end-targets = record { holds = tt }

    includes-targets : AllNames proxy_target P (includes show_int cfg)
    unfolding includes proxy_target contains
    includes-targets = record { holds = tt }

  -- Whatever the configuration, if nginx's template is executed, each name after a proxy_pass in the
  -- output is a name after an upstream in the same output.
  nginx_conf_template-IsDeclared :
      (config : Config) (o : Output) → nginx_conf_template show_int config ≡ ok o → IsDeclared o
  unfolding nginx_conf_template
  nginx_conf_template-IsDeclared config o h =
      let (locations, located, rest) =
        >>=-eq-ok (each_at (λ h. h.context_root) (root_location show_int) config.hosts) _ h in
      let (sections, printed, built) =
        >>=-eq-ok
          (each_at (λ h. h.context_root) (host_section show_int (host_server show_int))
            config.hosts)
          _ rest in
      let cfg = config.config in
      let declared =
        template-IsDeclared show_int (host_server show_int) config.hosts locations sections located
          printed (λ P h. host_server-targets show_int {P = P} h) (main_settings show_int cfg)
          (default_server show_int cfg) (default_end show_int) (includes show_int cfg)
          (λ P. main_settings-targets {P = P} cfg) (λ P. default_server-targets {P = P} cfg)
          (λ P. default_end-targets {P = P} cfg) (λ P. includes-targets {P = P} cfg) in
      IsDeclared-same (ok-injective built) declared

  -- The same of the template for NGINX Plus.
  nginx_plus_conf_template-IsDeclared :
      (config : Config) (o : Output)
      → nginx_plus_conf_template show_int config ≡ ok o
      → IsDeclared o
  unfolding nginx_plus_conf_template
  nginx_plus_conf_template-IsDeclared config o h =
      let (locations, located, rest) =
        >>=-eq-ok (each_at (λ h. h.context_root) (root_location show_int) config.hosts) _ h in
      let (sections, printed, built) =
        >>=-eq-ok
          (each_at (λ h. h.context_root) (host_section show_int (plus_host_server show_int))
            config.hosts)
          _ rest in
      let cfg = config.config in
      let declared =
        template-IsDeclared show_int (plus_host_server show_int) config.hosts locations sections
          located printed (λ P h. plus_host_server-targets show_int {P = P} h)
          (main_settings show_int cfg) (plus_server show_int cfg) (plus_end show_int)
          (includes show_int cfg) (λ P. main_settings-targets {P = P} cfg)
          (λ P. plus_server-targets {P = P} cfg) (λ P. plus_end-targets {P = P} cfg)
          (λ P. includes-targets {P = P} cfg) in
      IsDeclared-same (ok-injective built) declared

  nginx_conf_template-ok :
      (config : Config)
      → All (λ h. (root : ContextRoot) × (h.context_root ≡ some root)) config.hosts
      → (o : Output) × (nginx_conf_template show_int config ≡ ok o)
  unfolding nginx_conf_template
  nginx_conf_template-ok config rooted =
      let (locations, located) =
        each_at-ok (λ h. h.context_root) (root_location show_int) config.hosts rooted in
      let (sections, printed) =
        each_at-ok (λ h. h.context_root) (host_section show_int (host_server show_int)) config.hosts
          rooted in
      (
        main_settings show_int config.config
            ⊕ default_server show_int config.config
            ⊕ locations
            ⊕ default_end show_int
            ⊕ sections
            ⊕ includes show_int config.config,
        rw (nginx_conf_template, located, printed) refl,
      )

  nginx_plus_conf_template-ok :
      (config : Config)
      → All (λ h. (root : ContextRoot) × (h.context_root ≡ some root)) config.hosts
      → (o : Output) × (nginx_plus_conf_template show_int config ≡ ok o)
  unfolding nginx_plus_conf_template
  nginx_plus_conf_template-ok config rooted =
      let (locations, located) =
        each_at-ok (λ h. h.context_root) (root_location show_int) config.hosts rooted in
      let (sections, printed) =
        each_at-ok (λ h. h.context_root) (host_section show_int (plus_host_server show_int))
          config.hosts rooted in
      (
        main_settings show_int config.config
            ⊕ plus_server show_int config.config
            ⊕ locations
            ⊕ plus_end show_int
            ⊕ sections
            ⊕ includes show_int config.config,
        rw (nginx_plus_conf_template, located, printed) refl,
      )

  -- A configuration that is generated is printed by both of nginx's templates, without an error; in both
  -- outputs, each name after a proxy_pass, with the "ctx" of a context root, is a name after an upstream.
  pub nginx-prints :
      (platform : Platform) (cfg : ExtensionConfig) (cs : List Container) (config : Config)
      → generate_proxy_config platform cfg cs ≡ ok config
      → ((o : Output) × (nginx_conf_template show_int config ≡ ok o) × IsDeclared o)
        × ((o : Output) × (nginx_plus_conf_template show_int config ≡ ok o) × IsDeclared o)
  nginx-prints platform cfg cs config h =
      let (printable, _) = generate-IsPrintable platform cfg cs config h in
      let rooted = All-imp config.hosts (λ host p. p.rooted) printable in
      let (o, done) = nginx_conf_template-ok config rooted in
      let (p, plus_done) = nginx_plus_conf_template-ok config rooted in
      (
        (o, done, nginx_conf_template-IsDeclared config o done),
        (p, plus_done, nginx_plus_conf_template-IsDeclared config p plus_done),
      )
