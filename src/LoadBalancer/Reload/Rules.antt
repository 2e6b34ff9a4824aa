-- ===== src/LoadBalancer/Reload/Rules.antt =====
-- The rules that Reload of ext/lb/haproxy inserts, in ext/lb/haproxy/iptables.go.
use interlock_old.Prelude.{
  ◌≡◌, refl, false, String, List, [], ◌∷◌, ◌++◌, Option, none, some, ◌≢◌, Option-cases, Bool-cases,
  inl, inr, arith, append-nil,
}
use interlock_old.Prelude.Int.{ℤ, pos, is_zero}
use interlock_old.Go.Outcome.{Outcome, ok, err, panic}
use interlock_old.Config.{ExtensionConfig}
use interlock_old.Engine.{
  Engine, Effect, command, sleep, State, Run, text, number, ask, attempt, fail_on, give, ◌>>=◌,
}
use interlock_old.Engine.Effects.{
  Asks, IsCalm, Ends, Ends-caught, Ends-and_then, Ends-stopped, Ends-ask, Ends-quiet,
}
use interlock_old.LoadBalancer.Reload.{
  rule_arguments, rule_ports, found_path, run_rules, config_iptables,
}

-- iptables inserts the rule that drops SYN packets to a port.
abbrev pub insertion : String → ℤ → Effect
insertion path port = command path (
    text "-I"
    ∷ text "INPUT"
    ∷ text "-p"
    ∷ text "tcp"
    ∷ text "--dport"
    ∷ number port
    ∷ text "--syn"
    ∷ text "-j"
    ∷ text "DROP"
    ∷ [])

-- The pause that follows only where no rule was refused.
abbrev pub pause : Outcome (Unit {0}) → List Effect
pause (ok u) = sleep 1000 ∷ []
pause (err e) = []
pause panic = []

abbrev not_found : String
not_found = "executable file not found in $PATH"

module _ (engine : Engine) where
  -- The rules of the ports are inserted in order, up to the first that is refused.
  pub data Inserts (path : String) : List ℤ → List Effect → Outcome (Unit {0}) → Type 0 where
    all_done : Inserts path [] [] (ok tt)
    inserted :
        {port : ℤ} {ports : List ℤ} {es : List Effect} {o : Outcome (Unit {0})} (w : engine.World)
        → (engine.perform (insertion path port) w).0 ≡ none
        → Inserts path ports es o
        → Inserts path (port ∷ ports) (insertion path port ∷ es) o
    rejected :
        {port : ℤ} {ports : List ℤ} (w : engine.World) (e : String)
        → (engine.perform (insertion path port) w).0 ≡ some e
        → Inserts path (port ∷ ports) (insertion path port ∷ []) (err e)

  -- The rules for the proxy's port, and for its SSL port if it is not zero, are inserted with the
  -- iptables that is found in the world `w`; or none is found.
  pub data Drops (cfg : ExtensionConfig) (w : engine.World)
      : List Effect → Outcome (Unit {0}) → Type 0 where
    unfound : (e : String) → engine.look_path "iptables" w ≡ none → Drops cfg w [] (err e)
    plain :
        {es : List Effect} {o : Outcome (Unit {0})} (path : String)
        → engine.look_path "iptables" w ≡ some path
        → cfg.ssl_port ≡ pos 0
        → Inserts path (cfg.port ∷ []) es o
        → Drops cfg w es o
    ssl :
        {es : List Effect} {o : Outcome (Unit {0})} (path : String)
        → engine.look_path "iptables" w ≡ some path
        → cfg.ssl_port ≢ pos 0
        → Inserts path (cfg.port ∷ cfg.ssl_port ∷ []) es o
        → Drops cfg w es o

  Inserts-IsCalm :
      {path : String} {ports : List ℤ} {es : List Effect} {o : Outcome (Unit {0})}
      → Inserts path ports es o
      → IsCalm o
  Inserts-IsCalm all_done = tt
  Inserts-IsCalm (inserted w h rest) = Inserts-IsCalm rest
  Inserts-IsCalm (rejected w e h) = tt

  pub Drops-IsCalm :
      {cfg : ExtensionConfig} {w : engine.World} {es : List Effect} {o : Outcome (Unit {0})}
      → Drops cfg w es o
      → IsCalm o
  Drops-IsCalm (unfound e h) = tt
  Drops-IsCalm (plain path h z i) = Inserts-IsCalm i
  Drops-IsCalm (ssl path h z i) = Inserts-IsCalm i

  run_rules-Inserts :
      (path : String) (ports : List ℤ) (s : State engine.World)
      → (es : List Effect) × (o : Outcome (Unit {0})) × Inserts path ports es o
        × Ends (run_rules engine path false ports s) s.asked es o
  unfolding run_rules rule_arguments
  run_rules-Inserts path [] s = ([], ok tt, all_done, Ends-quiet s refl)
  run_rules-Inserts path (port ∷ ports) s =
      let s1 = (ask engine (insertion path port) s).1 in
      let next : Option String → Run engine.World (Unit {0}) =
        λ e. fail_on e >>= (λ _. run_rules engine path false ports) in
      elim (Option-cases ((engine.perform (insertion path port) s.world).0)) [
        | inr (e, refused) ↦ (
          insertion path port ∷ [],
          err e,
          rejected s.world e refused,
          Ends-and_then (ask engine (insertion path port) s) next
              (Ends-ask engine (insertion path port) s refused)
              (Ends-stopped (fail_on (some e) s1) (λ _. run_rules engine path false ports)
                (Ends-quiet s1 refl)),
        )
        | inl accepted ↦
            let (es, o, rest, ends) = run_rules-Inserts path ports s1 in
            (
              insertion path port ∷ es,
              o,
              inserted s.world accepted rest,
              Ends-and_then (ask engine (insertion path port) s) next
                  (Ends-ask engine (insertion path port) s accepted) ends,
            )
      ]

  module _ (cfg : ExtensionConfig) where
    pub config_iptables-Drops :
        (s : State engine.World)
        → (es : List Effect) × (o : Outcome (Unit {0})) × Drops cfg s.world es o
          × Ends (config_iptables engine cfg false s) s.asked es o
    unfolding config_iptables rule_ports found_path
    config_iptables-Drops s = elim (Option-cases (engine.look_path "iptables" s.world)) [
      | inl missing ↦ (
        [],
        err not_found,
        unfound not_found missing,
        rw (missing, config_iptables) (Ends-quiet s refl),
      )
      | inr (path, found) ↦ elim (Bool-cases (is_zero cfg.ssl_port)) [
        | inl zero_port ↦
            let (es, o, inserts, ends) = run_rules-Inserts path (cfg.port ∷ []) s in
            (
              es,
              o,
              plain path found (ground arith) inserts,
              rw (found, config_iptables, zero_port) ends,
            )
        | inr port ↦
            let (es, o, inserts, ends) = run_rules-Inserts path (cfg.port ∷ cfg.ssl_port ∷ []) s in
            (es, o, ssl path found (ground arith) inserts, rw (found, config_iptables, port) ends)
      ]
    ]

    pub Asks-paused :
        (m : Run engine.World (Unit {0})) (s : State engine.World) (es : List Effect)
        (o : Outcome (Unit {0}))
        → IsCalm o
        → Ends (m s) s.asked es o
        → Asks
            (attempt (m >>= (λ _. ask engine (sleep 1000) >>= (λ _. give tt))) s)
            s.asked
            (es ++ pause o)
            o
    unfolding ask
    Asks-paused m s es (ok u) calm ends =
        Ends-caught _ tt (Ends-and_then (m s) _ ends (record { result = refl; asked = refl }))
    Asks-paused m s es panic calm ends = elim calm [ ]
    Asks-paused m s es (err e) calm ends =
        rw (append-nil es) (Ends-caught _ tt (Ends-stopped (m s) _ ends))
