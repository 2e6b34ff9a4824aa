-- ===== src/LoadBalancer/Reload.antt =====
-- Reload of ext/lb/nginx/nginx.go and of ext/lb/haproxy/haproxy.go, with ext/lb/haproxy/iptables.go.
pub mod Rules
pub mod Kept
use interlock_old.Prelude.{
  String, Bool, true, false, List, [], ◌∷◌, Option, none, some, if◌then◌else◌,
}
use interlock_old.Prelude.Int.{ℤ, is_zero}
use interlock_old.Go.Outcome.{Outcome, ok, err, panic}
use interlock_old.Go.Text.{slice_to}
use interlock_old.Platform.{Container}
use interlock_old.Config.{ExtensionConfig}
use interlock_old.Engine.{
  Argument, text, number, Engine, Effect, container_kill, container_restart, command, sleep, Run,
  ◌>>=◌, give, lift, attempt, reading, ask, fail_on,
}

-- cnt.Names[0]
unfoldable pub first_name : List String → Outcome String
first_name [] = panic
first_name (name ∷ names) = ok name

-- The slices that the log lines take: of an error, the ID; of a success, the ID and the first name.
unfoldable pub log_outcome : {W : Type 0} → Container → Option String → Run W (Unit {0})
unfolding slice_to first_name
log_outcome cnt (some e) = do _ ← lift (slice_to 12 cnt.id); give tt
log_outcome cnt none = do _ ← lift (slice_to 12 cnt.id); _ ← lift (first_name cnt.names); give tt

-- The arguments by which iptables inserts or deletes the rule that drops SYN packets to a port.
unfoldable pub rule_arguments : Bool → ℤ → List Argument
rule_arguments drop port =
    text (if drop then "-D" else "-I")
    ∷ text "INPUT"
    ∷ text "-p"
    ∷ text "tcp"
    ∷ text "--dport"
    ∷ number port
    ∷ text "--syn"
    ∷ text "-j"
    ∷ text "DROP"
    ∷ []

unfoldable pub rule_ports : ExtensionConfig → List ℤ
rule_ports cfg = if is_zero cfg.ssl_port then cfg.port ∷ [] else cfg.port ∷ cfg.ssl_port ∷ []

unfoldable pub found_path : Option String → Outcome String
found_path none = err "executable file not found in $PATH"
found_path (some path) = ok path

module _ (engine : Engine) where
  -- The loop over a list of containers, in which an error only leads to a log line.
  unfoldable pub signal_all : (String → Effect) → List Container → Run engine.World (Unit {0})
  unfolding ask log_outcome
  signal_all signal [] = give tt
  signal_all signal (cnt ∷ cnts) = do
    e ← ask engine (signal cnt.id)
    _ ← log_outcome cnt e
    signal_all signal cnts

  unfoldable pub run_rules : String → Bool → List ℤ → Run engine.World (Unit {0})
  unfolding ask rule_arguments
  run_rules path drop [] = give tt
  run_rules path drop (port ∷ ports) = do
    e ← ask engine (command path (rule_arguments drop port))
    _ ← fail_on e
    run_rules path drop ports

  unfoldable pub config_iptables : ExtensionConfig → Bool → Run engine.World (Unit {0})
  unfolding run_rules rule_ports found_path
  config_iptables cfg drop = do
    path ← reading (λ w. found_path (engine.look_path "iptables" w))
    run_rules path drop (rule_ports cfg)

  unfoldable pub drop_syn : ExtensionConfig → Run engine.World (Unit {0})
  unfolding config_iptables ask
  drop_syn cfg = do _ ← config_iptables cfg false; _ ← ask engine (sleep 1000); give tt

  unfoldable pub resume_syn : ExtensionConfig → Run engine.World (Unit {0})
  unfolding config_iptables
  resume_syn cfg = config_iptables cfg false

  unfoldable pub nginx_reload : List Container → Run engine.World (Unit {0})
  unfolding signal_all
  nginx_reload cnts = signal_all (λ id. container_kill id "HUP") cnts

  unfoldable pub haproxy_reload : ExtensionConfig → List Container → Run engine.World (Unit {0})
  unfolding drop_syn signal_all resume_syn
  haproxy_reload cfg cnts = do
    _ ← attempt (drop_syn cfg)
    _ ← signal_all (λ id. container_restart id 1000) cnts
    _ ← attempt (resume_syn cfg)
    give tt
