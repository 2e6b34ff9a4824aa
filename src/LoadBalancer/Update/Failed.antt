-- ===== src/LoadBalancer/Update/Failed.antt =====
-- A round of the loop over lbUpdateChan that fails.
use interlock_old.Prelude.{
  ◌⊎◌, ◌≡◌, ◌∙◌, ◌/◌, length, ℕ, refl, String, List, [], ◌∷◌, Option, none, some, leb, Bool-cases,
  inl, inr,
}
use Prim.Native.String.{len}
use interlock_old.Go.Outcome.{Outcome, ok, err, panic, ◌>>=◌}
use interlock_old.Go.Text.{slice_to}
use interlock_old.Go.Maps.{Map, index, has_key}
use interlock_old.Go.FilePath.{base, dir}
use interlock_old.Platform.{Container}
use interlock_old.Config.{ExtensionConfig}
use interlock_old.Nginx
use interlock_old.Haproxy
use interlock_old.Engine.{
  Engine, Effect, container_kill, container_restart, copy_to_container, network_connect, sleep,
  State, Run, and_then, caught, attempt, ask, meanwhile,
}
use interlock_old.LoadBalancer.Restart.{assign, cut_ids, proxy_containers_to_restart}
use interlock_old.LoadBalancer.Reload.{
  first_name, log_outcome, signal_all, drop_syn, resume_syn, nginx_reload, haproxy_reload,
}
use interlock_old.LoadBalancer.Update.{
  Backend, nginx_backend, haproxy_backend, is_self, proxies_of, proxy_containers, copy_all,
  save_config, connect_one, connect_all, interlock_nodes, refresh, update,
}

-- The run does not end with an error.
abbrev HasNoError : {A : Type 0} → Outcome A → Type 0
HasNoError (ok a) = Unit
HasNoError (err e) = ⊥
HasNoError panic = Unit

-- If the run ends with an error, it has asked for nothing.
abbrev LeavesOnError : {W A : Type 0} → Outcome A × State W → List Effect → Type 0
LeavesOnError r before = (e : String) → r.0 ≡ err e → r.1.asked ≡ before

HasNoError-and_then :
    {W A B : Type 0} (r : Outcome A × State W) (f : A → Run W B)
    → HasNoError r.0
    → ((a : A) (s : State W) → HasNoError (f a s).0)
    → HasNoError (and_then r f).0
HasNoError-and_then (ok x, s) f h k = k x s
HasNoError-and_then (err e, s) f h k = absurd h
HasNoError-and_then (panic, s) f h k = tt

HasNoError-caught : {W A : Type 0} (r : Outcome A × State W) → HasNoError (caught r).0
HasNoError-caught (ok x, s) = tt
HasNoError-caught (err e, s) = tt
HasNoError-caught (panic, s) = tt

LeavesOnError-then :
    {W A B : Type 0} (r : Outcome A × State W) (f : A → Run W B) {before : List Effect}
    → r.1.asked ≡ before
    → ((a : A) (t : State W) → t.asked ≡ before → LeavesOnError (f a t) before)
    → LeavesOnError (and_then r f) before
LeavesOnError-then (ok x, s) f same k = k x s same
LeavesOnError-then (err e, s) f same k = λ e' h. same
LeavesOnError-then (panic, s) f same k = λ e' h. same

LeavesOnError-last :
    {W A B : Type 0} (r : Outcome A × State W) (f : A → Run W B) {before : List Effect}
    → LeavesOnError r before
    → ((a : A) (s : State W) → HasNoError (f a s).0)
    → LeavesOnError (and_then r f) before
LeavesOnError-last (ok x, s) f leaves k = λ e h. absurd (rw h at (k x s))
LeavesOnError-last (err e, s) f leaves k = λ e' h. leaves e refl
LeavesOnError-last (panic, s) f leaves k = λ e h. cc h

LeavesOnError-of :
    {W A : Type 0} (r : Outcome A × State W) {before : List Effect}
    → HasNoError r.0
    → LeavesOnError r before
LeavesOnError-of r none_given e h = absurd (rw h at none_given)

slice_to-HasNoError : (n : ℕ) (s : String) → HasNoError (slice_to n s)
unfolding slice_to
slice_to-HasNoError n s = elim (Bool-cases (leb n (len s))) [
  | inl long ↦ rw (slice_to, long) tt
  | inr short ↦ rw (slice_to, short) tt
]

bind-HasNoError :
    {A B : Type 0} (m : Outcome A) (f : A → Outcome B)
    → HasNoError m
    → ((a : A) → HasNoError (f a))
    → HasNoError (m >>= f)
bind-HasNoError (ok a) f h k = k a
bind-HasNoError (err e) f h k = absurd h
bind-HasNoError panic f h k = tt

cut_ids-HasNoError : (cs : List Container) → HasNoError (cut_ids cs)
unfolding cut_ids
cut_ids-HasNoError [] = tt
cut_ids-HasNoError (c ∷ cs) =
    bind-HasNoError (slice_to 8 c.id) _ (slice_to-HasNoError 8 c.id)
      (λ id. bind-HasNoError (cut_ids cs) _ (cut_ids-HasNoError cs) (λ ids. tt))

restart-HasNoError :
    (node_id : String) (nodes proxies : List Container)
    → HasNoError (proxy_containers_to_restart node_id nodes proxies)
unfolding proxy_containers_to_restart
restart-HasNoError node_id [] proxies = tt
restart-HasNoError node_id (node ∷ []) proxies = tt
restart-HasNoError node_id (node ∷ next ∷ nodes) proxies =
    let sub = length proxies / length (node ∷ next ∷ nodes) in
    let share = index [] node_id (assign sub (node ∷ next ∷ nodes) proxies []) in
    bind-HasNoError (cut_ids share) (λ ids. ok share) (cut_ids-HasNoError share) (λ ids. tt)

first_name-HasNoError : (names : List String) → HasNoError (first_name names)
unfolding first_name
first_name-HasNoError [] = tt
first_name-HasNoError (name ∷ names) = tt

log-HasNoError :
    {W : Type 0} (cnt : Container) (e : Option String) (s : State W)
    → HasNoError (log_outcome cnt e s).0
unfolding log_outcome
log-HasNoError cnt (some e) s =
    HasNoError-and_then (slice_to 12 cnt.id, s) _ (slice_to-HasNoError 12 cnt.id) (λ id t. tt)
log-HasNoError cnt none s =
    HasNoError-and_then (slice_to 12 cnt.id, s) _ (slice_to-HasNoError 12 cnt.id)
      (λ id t.
        HasNoError-and_then (first_name cnt.names, t) _ (first_name-HasNoError cnt.names)
          (λ name u. tt))

module _ (engine : Engine) where
  signal_all-HasNoError :
      (signal : String → Effect) (cnts : List Container) (s : State engine.World)
      → HasNoError (signal_all engine signal cnts s).0
  unfolding signal_all ask
  signal_all-HasNoError signal [] s = tt
  signal_all-HasNoError signal (cnt ∷ cnts) s =
      let r = ask engine (signal cnt.id) s in
      let e = (engine.perform (signal cnt.id) s.world).0 in
      HasNoError-and_then (log_outcome cnt e r.1) (λ _. signal_all engine signal cnts)
        (log-HasNoError cnt e r.1) (λ _ t. signal_all-HasNoError signal cnts t)

  haproxy_reload-HasNoError :
      (cfg : ExtensionConfig) (cnts : List Container) (s : State engine.World)
      → HasNoError (haproxy_reload engine cfg cnts s).0
  unfolding haproxy_reload
  haproxy_reload-HasNoError cfg cnts s =
      HasNoError-and_then (attempt (drop_syn engine cfg) s) _
        (HasNoError-caught (drop_syn engine cfg s))
        (λ _ t.
          HasNoError-and_then (signal_all engine (λ id. container_restart id 1000) cnts t) _
            (signal_all-HasNoError (λ id. container_restart id 1000) cnts t)
            (λ _ u.
              HasNoError-and_then (attempt (resume_syn engine cfg) u) _
                (HasNoError-caught (resume_syn engine cfg u)) (λ _ v. tt)))

  copy_all-HasNoError :
      (folder file text : String) (cnts : List Container) (s : State engine.World)
      → HasNoError (copy_all engine folder file text cnts s).0
  unfolding copy_all ask
  copy_all-HasNoError folder file text [] s = tt
  copy_all-HasNoError folder file text (cnt ∷ cnts) s =
      copy_all-HasNoError folder file text cnts
        (ask engine (copy_to_container cnt.id folder file text) s).1

  connect_one-HasNoError :
      (cnt : Container) (networks : Map String) (s : State engine.World)
      → HasNoError (connect_one engine cnt networks s).0
  unfolding connect_one ask
  connect_one-HasNoError cnt [] s = tt
  connect_one-HasNoError cnt ((net, value) ∷ networks) s =
      elim (Bool-cases (has_key net cnt.networks)) [
        | inl there ↦ rw (there, connect_one) (connect_one-HasNoError cnt networks s)
        | inr absent ↦
            rw (absent, connect_one)
              (connect_one-HasNoError cnt networks (ask engine (network_connect net cnt.id) s).1)
      ]

  connect_all-HasNoError :
      (networks : Map String) (cnts : List Container) (s : State engine.World)
      → HasNoError (connect_all engine networks cnts s).0
  unfolding connect_all
  connect_all-HasNoError networks [] s = tt
  connect_all-HasNoError networks (cnt ∷ cnts) s =
      HasNoError-and_then (connect_one engine cnt networks s)
        (λ _. connect_all engine networks cnts) (connect_one-HasNoError cnt networks s)
        (λ _ t. connect_all-HasNoError networks cnts t)

  interlock_nodes-HasNoError :
      (node_id : String) (cnts : List Container) (s : State engine.World)
      → HasNoError (interlock_nodes engine node_id cnts s).0
  unfolding interlock_nodes
  interlock_nodes-HasNoError node_id [] s = tt
  interlock_nodes-HasNoError node_id (cnt ∷ cnts) s = elim (Bool-cases (is_self node_id cnt)) [
    | inl self ↦
        rw (self, interlock_nodes)
          (HasNoError-and_then (interlock_nodes engine node_id cnts s) _
            (interlock_nodes-HasNoError node_id cnts s) (λ nodes t. tt))
    | inr other ↦
        rw (other, interlock_nodes)
          (HasNoError-and_then _ _
            (HasNoError-and_then (caught ((engine.answers s.world).container_inspect cnt.id, s)) _
              (HasNoError-caught ((engine.answers s.world).container_inspect cnt.id, s))
              (λ answer t. tt))
            (λ found t.
              HasNoError-and_then (interlock_nodes engine node_id cnts t) _
                (interlock_nodes-HasNoError node_id cnts t) (λ nodes u. tt)))
  ]

  proxy_containers-asked :
      (name : String) (m : Outcome (List Container)) (s : State engine.World)
      → (and_then (m, s) (λ cs t. (ok (proxies_of name cs), t))).1.asked ≡ s.asked
  proxy_containers-asked name (ok cs) s = refl
  proxy_containers-asked name (err e) s = refl
  proxy_containers-asked name panic s = refl

  module _ (backend : Backend engine)
      (reloads : (cnts : List Container) (s : State engine.World)
        → HasNoError (backend.reload cnts s).0) where
    save_config-LeavesOnError :
        (cfg : backend.Config) (proxies : List Container) (s : State engine.World)
        → LeavesOnError (save_config engine backend cfg proxies s) s.asked
    unfolding save_config
    save_config-LeavesOnError cfg proxies s =
        LeavesOnError-then (backend.render cfg, s) _ refl
          (λ text t same.
            LeavesOnError-of
              (copy_all engine (dir backend.config_path) (base backend.config_path) text proxies t)
              (copy_all-HasNoError (dir backend.config_path) (base backend.config_path) text proxies
                t))

    rest-HasNoError :
        (cfg : backend.Config) (node_id : String) (containers proxies : List Container)
        (s : State engine.World)
        → HasNoError
            (and_then (connect_all engine (backend.networks cfg) proxies s) (λ _ t.
              and_then (interlock_nodes engine node_id containers t) (λ nodes u.
                and_then
                  (proxy_containers_to_restart node_id nodes proxies, u)
                  (λ restart v. backend.reload restart (ask engine (sleep 1000) v).1)))).0
    rest-HasNoError cfg node_id containers proxies s =
        HasNoError-and_then (connect_all engine (backend.networks cfg) proxies s) _
          (connect_all-HasNoError (backend.networks cfg) proxies s)
          (λ _ t.
            HasNoError-and_then (interlock_nodes engine node_id containers t) _
              (interlock_nodes-HasNoError node_id containers t)
              (λ nodes u.
                HasNoError-and_then (proxy_containers_to_restart node_id nodes proxies, u) _
                  (restart-HasNoError node_id nodes proxies) (λ restart v. reloads restart _)))

    update-LeavesOnError :
        (node_id : String) (s : State engine.World)
        → LeavesOnError (update engine backend node_id s) s.asked
    unfolding update refresh proxy_containers ask meanwhile
    update-LeavesOnError node_id s = elim (Bool-cases (engine.cache_has "reload" s.world)) [
      | inl recent ↦ rw (recent, update) (λ e h. refl)
      | inr due ↦
          rw (due, update)
            (LeavesOnError-then (engine.container_list s.world, s) _ refl
              (λ containers t same.
                LeavesOnError-then
                  (backend.generate_proxy_config (engine.answers t.world) containers, t) _ same
                  (λ cfg u same'.
                    let v = (meanwhile engine u).1 in
                    LeavesOnError-then (proxy_containers engine backend.name v) _
                      (proxy_containers-asked backend.name (engine.container_list v.world) v
                        ∙ same')
                      (λ proxies w same''.
                        LeavesOnError-last (save_config engine backend cfg proxies w) _
                          (λ e h. save_config-LeavesOnError cfg proxies w e h ∙ same'')
                          (λ _ x. rest-HasNoError cfg node_id containers proxies x)))))
    ]

-- The two backends that there are.
abbrev pub IsKnown : (engine : Engine) → Backend engine → Type 1
IsKnown engine backend =
    (cfg : ExtensionConfig) × (((render : Nginx.Config → Outcome String) × (backend
          ≡ nginx_backend engine cfg render))
      ⊎ ((render : Haproxy.Config → Outcome String) × (backend
            ≡ haproxy_backend engine cfg render)))

reload-HasNoError :
    (engine : Engine) (backend : Backend engine)
    → IsKnown engine backend
    → (cnts : List Container) (s : State engine.World) → HasNoError (backend.reload cnts s).0
unfolding nginx_backend haproxy_backend nginx_reload
reload-HasNoError engine backend (cfg, inl (render, same)) cnts s =
    rw same (signal_all-HasNoError engine (λ id. container_kill id "HUP") cnts s)
reload-HasNoError engine backend (cfg, inr (render, same)) cnts s =
    rw same (haproxy_reload-HasNoError engine cfg cnts s)

-- A round over nginx or HAProxy that ends with an error has asked the engine for nothing: no configuration
-- is copied, no network connected, no proxy reloaded.
pub update-untouched :
    (engine : Engine) (backend : Backend engine) (node_id : String) (s : State engine.World)
    (e : String)
    → IsKnown engine backend
    → (update engine backend node_id s).0 ≡ err e
    → (update engine backend node_id s).1.asked ≡ s.asked
update-untouched engine backend node_id s e known failed =
    update-LeavesOnError engine backend (reload-HasNoError engine backend known) node_id s e failed
