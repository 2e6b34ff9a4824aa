-- ===== src/Haproxy/Declared.antt =====
-- Every backend that HAProxy's template uses is one that it declares; a generated configuration is
-- always printed.
use Prim.Derive.{subst}
use interlock_old.Prelude.{
  ◌≡◌, refl, inl, inr, String, ◌<>◌, not, ◌&&◌, List, [], ◌∷◌, All, All-imp, IsIn, Option, none,
  some, ◌==◌, Bool-cases, if◌then◌else◌,
}
use interlock_old.Prelude.Int.{ℤ}
use interlock_old.Go.Outcome.{ok, >>=-eq-ok, ok-injective}
use interlock_old.Go.Text.{contains}
use interlock_old.Go.Template.{Output, pieces, ◌⊕◌, lit, each_at}
use interlock_old.Go.Template.Scan.{
  names, AllNames, AllNames-join, AllNames-each, AllNames-if, AllNames-when, AllNames-each_at,
  IsIn-names-left, IsIn-names-right, IsIn-each_at, each_at-ok,
}
use interlock_old.Config.{ExtensionConfig}
use interlock_old.Platform.{Platform, Container}
use interlock_old.Routing.{ContextRoot}
use interlock_old.Haproxy.{Host, Config, generate_proxy_config}
use interlock_old.Haproxy.Hosts.{haproxy-IsPrintable}
use interlock_old.Haproxy.Template.{
  global_section, defaults_section, frontend_section, frontend_rules, backend_head, backend_body,
  backend_servers, backend_section, haproxy_conf_template,
}

-- The backend of a context root is named with "ctx" in front.
unfoldable pub named_backend : String → String → String
unfolding contains
named_backend s v = if contains s "ctx" then "ctx" <> v else v

-- The value after use_backend
unfoldable pub used_backend : String → String → Option String
unfolding contains named_backend
used_backend s v = if contains s "use_backend " then some (named_backend s v) else none

-- The value after backend
unfoldable pub backend_name : String → String → Option String
unfolding contains named_backend
backend_name s v =
    if contains s "backend " && not (contains s "use_backend ")
    then some (named_backend s v)
    else none

-- Each backend that is used is declared.
abbrev pub IsDeclared : Output → Type 0
IsDeclared o = AllNames used_backend (λ n. IsIn n (names backend_name o)) o

IsDeclared-same : {o p : Output} → o ≡ p → IsDeclared o → IsDeclared p
IsDeclared-same same declared = subst IsDeclared same declared

module _ (show_int : ℤ → String) where
  module _ {P : String → Type 0} where
    frontend_rules-used :
        (h : Host) (root : ContextRoot)
        → (if root.path == "" then P h.name else P ("ctx" <> root.name))
        → AllNames used_backend P (frontend_rules show_int h root)
    unfolding frontend_rules used_backend contains named_backend
    frontend_rules-used h root p = elim (Bool-cases (root.path == "")) [
      | inl none_set ↦ rw (none_set, frontend_rules) (record { holds = (rw none_set at p, tt) })
      | inr set ↦ rw (set, frontend_rules) (record { holds = (rw set at p, tt) })
    ]

    backend_section-used :
        (h : Host) (root : ContextRoot) → AllNames used_backend P (backend_section show_int h root)
    unfolding backend_section backend_head backend_body backend_servers used_backend contains
        named_backend
    backend_section-used h root =
        AllNames-join used_backend
          (AllNames-if used_backend (not (root.path == ""))
            (AllNames-join used_backend (record { holds = tt })
              (AllNames-when used_backend h.context_root_rewrite (record { holds = tt })))
            (record { holds = tt }))
          (AllNames-join used_backend
            (AllNames-join used_backend (record { holds = tt })
              (AllNames-join used_backend
                (AllNames-each used_backend h.backend_options (λ option. record { holds = tt }))
                (AllNames-join used_backend (record { holds = tt })
                  (AllNames-join used_backend
                    (AllNames-when used_backend (not (h.check == "")) (record { holds = tt }))
                    (AllNames-join used_backend (record { holds = tt })
                      (AllNames-join used_backend
                        (AllNames-when used_backend h.ssl_only (record { holds = tt }))
                        (AllNames-join used_backend (record { holds = tt })
                          (AllNames-join used_backend
                            (AllNames-when used_backend h.ssl_only (record { holds = tt }))
                            (record { holds = tt })))))))))
            (AllNames-join used_backend
              (AllNames-each used_backend h.upstreams (λ up.
                AllNames-join used_backend (record { holds = tt })
                  (AllNames-join used_backend
                    (AllNames-when used_backend h.ssl_backend (record { holds = tt }))
                    (record { holds = tt }))))
              (record { holds = tt })))

    settings-used :
        (cfg : ExtensionConfig)
        → AllNames used_backend P (global_section show_int cfg)
          × AllNames used_backend P (defaults_section show_int cfg)
          × AllNames used_backend P (frontend_section show_int cfg)
    unfolding global_section defaults_section frontend_section used_backend contains
    settings-used cfg = (
      AllNames-join used_backend (record { holds = tt })
          (AllNames-join used_backend
            (AllNames-when used_backend (not (cfg.syslog_addr == "")) (record { holds = tt }))
            (record { holds = tt })),
      record { holds = tt },
      AllNames-join used_backend (record { holds = tt })
          (AllNames-join used_backend
            (AllNames-when used_backend (not (cfg.ssl_cert == "")) (record { holds = tt }))
            (AllNames-join used_backend (record { holds = tt })
              (AllNames-join used_backend
                (AllNames-when used_backend (not (cfg.admin_user == "")) (record { holds = tt }))
                (record { holds = tt })))),
    )

  backend_section-named :
      (h : Host) (root : ContextRoot) (backends : Output)
      → ((n : String)
          → IsIn n (names backend_name (backend_section show_int h root))
          → IsIn n (names backend_name backends))
      → (if root.path == ""
          then IsIn h.name (names backend_name backends)
          else IsIn ("ctx" <> root.name) (names backend_name backends))
  unfolding backend_section backend_head backend_name contains named_backend
  backend_section-named h root backends lift = elim (Bool-cases (root.path == "")) [
    | inl none_set ↦
        rw none_set (lift h.name (rw (backend_section, backend_head, none_set) (inl refl)))
    | inr set ↦
        rw set (lift ("ctx" <> root.name) (rw (backend_section, backend_head, set) (inl refl)))
  ]

  haproxy_conf_template-IsDeclared :
      (config : Config) (o : Output) → haproxy_conf_template show_int config ≡ ok o → IsDeclared o
  unfolding haproxy_conf_template
  haproxy_conf_template-IsDeclared config o h =
      let cfg = config.config in
      let (rules, ruled, rest) =
        >>=-eq-ok (each_at (λ h. h.context_root) (frontend_rules show_int) config.hosts) _ h in
      let (backends, printed, built) =
        >>=-eq-ok (each_at (λ h. h.context_root) (backend_section show_int) config.hosts) _ rest in
      let space = pieces (lit "\n" ∷ lit "\n" ∷ []) in
      let tail = pieces (lit "\n" ∷ []) in
      let whole : Output =
        global_section show_int cfg
        ⊕ defaults_section show_int cfg
        ⊕ frontend_section show_int cfg
        ⊕ rules
        ⊕ space
        ⊕ backends
        ⊕ tail in
      let lift : (n : String)
          → IsIn n (names backend_name backends)
          → IsIn n (names backend_name whole) =
        λ n i.
          IsIn-names-right backend_name n (global_section show_int cfg)
            (defaults_section show_int cfg
              ⊕ frontend_section show_int cfg
              ⊕ rules
              ⊕ space
              ⊕ backends
              ⊕ tail)
            (IsIn-names-right backend_name n (defaults_section show_int cfg)
              (frontend_section show_int cfg ⊕ rules ⊕ space ⊕ backends ⊕ tail)
              (IsIn-names-right backend_name n (frontend_section show_int cfg)
                (rules ⊕ space ⊕ backends ⊕ tail)
                (IsIn-names-right backend_name n rules (space ⊕ backends ⊕ tail) (
                  IsIn-names-right backend_name n space (backends ⊕ tail)
                    (IsIn-names-left backend_name n backends tail i))))) in
      let used : AllNames used_backend (λ n. IsIn n (names backend_name backends)) rules =
        AllNames-each_at used_backend (λ h. h.context_root) (frontend_rules show_int) config.hosts
          rules ruled
          (λ h root i there. frontend_rules-used h root (
            backend_section-named h root backends (λ n.
              IsIn-each_at backend_name (λ h. h.context_root) (backend_section show_int) n
                config.hosts backends printed h root i there))) in
      let declared : AllNames used_backend (λ n. IsIn n (names backend_name whole)) rules = record {
        holds = All-imp (names used_backend rules) lift used.holds;
      } in
      let silent : AllNames used_backend (λ n. IsIn n (names backend_name whole)) backends =
        AllNames-each_at used_backend (λ h. h.context_root) (backend_section show_int) config.hosts
          backends printed (λ h root i there. backend_section-used h root) in
      let (global, defaults, frontend) =
        settings-used {P = λ n. IsIn n (names backend_name whole)} cfg in
      IsDeclared-same (ok-injective built) (
        AllNames-join used_backend global (
          AllNames-join used_backend defaults (
            AllNames-join used_backend frontend (
              AllNames-join used_backend declared (
                AllNames-join used_backend (record { holds = tt })
                  (AllNames-join used_backend silent (record { holds = tt })))))))

  haproxy_conf_template-ok :
      (config : Config)
      → All (λ h. (root : ContextRoot) × (h.context_root ≡ some root)) config.hosts
      → (o : Output) × (haproxy_conf_template show_int config ≡ ok o)
  unfolding haproxy_conf_template
  haproxy_conf_template-ok config rooted =
      let (rules, ruled) =
        each_at-ok (λ h. h.context_root) (frontend_rules show_int) config.hosts rooted in
      let (backends, printed) =
        each_at-ok (λ h. h.context_root) (backend_section show_int) config.hosts rooted in
      (
        global_section show_int config.config
            ⊕ defaults_section show_int config.config
            ⊕ frontend_section show_int config.config
            ⊕ rules
            ⊕ pieces (lit "\n" ∷ lit "\n" ∷ [])
            ⊕ backends
            ⊕ pieces (lit "\n" ∷ []),
        rw (haproxy_conf_template, ruled, printed) refl,
      )

  -- A configuration that is generated is printed by HAProxy's template, without an error; in the output,
  -- each name after a use_backend, with the "ctx" of a context root, is a name after a backend.
  pub haproxy-prints :
      (platform : Platform) (cfg : ExtensionConfig) (cs : List Container) (config : Config)
      → generate_proxy_config platform cfg cs ≡ ok config
      → (o : Output) × (haproxy_conf_template show_int config ≡ ok o) × IsDeclared o
  haproxy-prints platform cfg cs config h =
      let (_, printable, _) = haproxy-IsPrintable platform cfg cs config h in
      let (o, done) =
        haproxy_conf_template-ok config (All-imp config.hosts (λ host p. p.rooted) printable) in
      (o, done, haproxy_conf_template-IsDeclared config o done)
