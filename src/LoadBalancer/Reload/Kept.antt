-- ===== src/LoadBalancer/Reload/Kept.antt =====
-- What Reload asks of the engine, whatever errors the engine returns.
use interlock_old.Prelude.{
  ◌≡◌, refl, ◌≤◌, false, String, List, [], ◌∷◌, ◌++◌, map, All, Option, none, some,
}
use Prim.Native.String.{len}
use interlock_old.Go.Outcome.{Outcome}
use interlock_old.LoadBalancer.Restart.Members.{slice_to-ok}
use interlock_old.Platform.{Container}
use interlock_old.Config.{ExtensionConfig}
use interlock_old.Engine.{
  Engine, Effect, container_kill, container_restart, State, ask, attempt, give,
}
use interlock_old.Engine.Effects.{
  Asks, Asks-quiet, Asks-end, Asks-after, Asks-and_then, Ends-caught,
}
use interlock_old.LoadBalancer.Reload.Rules.{
  Drops, Drops-IsCalm, config_iptables-Drops, pause, Asks-paused,
}
use interlock_old.LoadBalancer.Reload.{
  first_name, log_outcome, signal_all, config_iptables, drop_syn, resume_syn, nginx_reload,
  haproxy_reload,
}

-- The ID and the names that the log lines of Reload slice.
pub record HasLogName (cnt : Container) : Type 0 where
  pub long_id : 12 ≤ len cnt.id
  pub name : String
  pub others : List String
  pub named : cnt.names ≡ name ∷ others

Asks-log_outcome :
    {W : Type 0} (cnt : Container) (e : Option String) (s : State W)
    → HasLogName cnt
    → Asks (log_outcome cnt e s) s.asked [] tt
unfolding log_outcome first_name
Asks-log_outcome cnt none s logged =
    rw (slice_to-ok 12 cnt.id logged.long_id, logged.named) (Asks-quiet tt s)
Asks-log_outcome cnt (some e) s logged = rw (slice_to-ok 12 cnt.id logged.long_id) (Asks-quiet tt s)

-- The loop goes on over errors.
Asks-signal_all :
    (engine : Engine) (signal : String → Effect) (cnts : List Container) (s : State engine.World)
    → All HasLogName cnts
    → Asks (signal_all engine signal cnts s) s.asked (map (λ cnt. signal cnt.id) cnts) tt
unfolding signal_all ask
Asks-signal_all engine signal [] s logged = Asks-quiet tt s
Asks-signal_all engine signal (cnt ∷ cnts) s logged =
    let r = ask engine (signal cnt.id) s in
    let e = (engine.perform (signal cnt.id) s.world).0 in
    let logs = Asks-log_outcome cnt e r.1 logged.0 in
    Asks-after (signal cnt.id ∷ []) refl (
      Asks-and_then (log_outcome cnt e r.1) (λ _. signal_all engine signal cnts) logs
        (Asks-signal_all engine signal cnts (log_outcome cnt e r.1).1 logged.1))

module _ (engine : Engine) (cfg : ExtensionConfig) where
  -- What a reload asks for from the world `w`: the rules are inserted, followed by a pause of a second
  -- if none is refused; each container is restarted, in order; the rules are inserted once more.
  pub record IsRestart (w : engine.World) (cnts : List Container) (es : List Effect) : Type 0 where
    pub drops : List Effect
    pub dropped : Outcome (Unit {0})
    pub dropping : Drops engine cfg w drops dropped
    pub later : engine.World
    pub resumes : List Effect
    pub resumed : Outcome (Unit {0})
    pub resuming : Drops engine cfg later resumes resumed
    pub exactly :
        es
        ≡ (drops ++ pause dropped) ++ (map (λ cnt. container_restart cnt.id 1000) cnts ++ resumes)

-- nginx's Reload sends HUP to each of the containers, in order, and to nothing else, whatever errors
-- the engine returns, if the log can name the containers.
pub nginx_reload-signals :
    (engine : Engine) (cnts : List Container) (s : State engine.World)
    → All HasLogName cnts
    → Asks (nginx_reload engine cnts s) s.asked (map (λ cnt. container_kill cnt.id "HUP") cnts) tt
unfolding nginx_reload
nginx_reload-signals engine cnts s logged =
    Asks-signal_all engine (λ id. container_kill id "HUP") cnts s logged

-- HAProxy's Reload asks for exactly this, whatever errors the engine and iptables return, if the log can
-- name the containers: a rule against SYN packets is inserted for each port of the proxy, up to the first
-- that is refused, and a pause of a second follows if none is; each of the containers is restarted, in
-- order; and the rules are inserted again, not deleted. Without iptables no rule is tried.
pub haproxy_reload-restarts :
    (engine : Engine) (cfg : ExtensionConfig) (cnts : List Container) (s : State engine.World)
    → All HasLogName cnts
    → (effects : List Effect) × IsRestart engine cfg s.world cnts effects
      × Asks (haproxy_reload engine cfg cnts s) s.asked effects tt
unfolding haproxy_reload resume_syn drop_syn
haproxy_reload-restarts engine cfg cnts s logged =
    let (drops, dropped, dropping, ends) = config_iptables-Drops engine cfg s in
    let paused =
      Asks-paused engine cfg (config_iptables engine cfg false) s drops dropped
        (Drops-IsCalm engine dropping) ends in
    let s1 = (attempt (drop_syn engine cfg) s).1 in
    let restarting = Asks-signal_all engine (λ id. container_restart id 1000) cnts s1 logged in
    let s2 = (signal_all engine (λ id. container_restart id 1000) cnts s1).1 in
    let (resumes, resumed, resuming, ends_again) = config_iptables-Drops engine cfg s2 in
    let s3 = (attempt (resume_syn engine cfg) s2).1 in
    let resumes_last =
      Asks-and_then (attempt (resume_syn engine cfg) s2) (λ _. give tt)
        (Ends-caught _ (Drops-IsCalm engine resuming) ends_again) (Asks-quiet tt s3) in
    (
      _,
      record {
        drops = drops;
        dropped = dropped;
        dropping = dropping;
        later = s2.world;
        resumes = resumes;
        resumed = resumed;
        resuming = resuming;
        exactly = refl;
      },
      Asks-and_then (attempt (drop_syn engine cfg) s) _ paused (
          Asks-and_then (signal_all engine (λ id. container_restart id 1000) cnts s1) _ restarting
            (Asks-end resumes resumes_last)),
    )
