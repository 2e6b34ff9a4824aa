-- ===== src/Nginx/Order.antt =====
-- The order in which the engine lists the containers does not matter to what is served.
use mathlib.Core.List.{Perm, Permᴰ, perm_append_comm}
use mathlib.Core.List.Perm
use interlock_old.Prelude.{
  ◌≡◌, refl, ap, ◌∙◌, Option-cases, inl, inr, append_assoc, String, List, [], ◌∷◌, ◌++◌, All,
}
use interlock_old.Go.Outcome.{Outcome, ok, err}
use interlock_old.Config.{ExtensionConfig}
use interlock_old.Platform.{Platform, Container, ContainerJson}
use interlock_old.Address.{find_backend}
use interlock_old.Routing.{find_route}
use interlock_old.Nginx.{Config, generate_proxy_config}
use interlock_old.Nginx.Upstreams.{addrs_served, addrs_of_answer, addrs_of_info}
use interlock_old.Nginx.Hosts.{servers_under, generate-serves}

append-swap : (xs ys zs : List String) → Perm (xs ++ (ys ++ zs)) (ys ++ (xs ++ zs))
append-swap xs ys zs =
    rw (← append_assoc xs ys zs, ← append_assoc ys xs zs)
      (Perm.append_right zs (perm_append_comm xs ys))

module _ (platform : Platform) (cfg : ExtensionConfig) (d : String) where
  addrs_served-Perm :
      {cs ds : List Container}
      → Permᴰ cs ds
      → Perm (addrs_served platform cfg d cs) (addrs_served platform cfg d ds)
  addrs_served-Perm Permᴰ.nil = Perm.refl []
  addrs_served-Perm (Permᴰ.cons {b = b} same p) = rw same (
      Perm.append_left (addrs_of_answer platform cfg d (platform.container_inspect b.id))
        (addrs_served-Perm p))
  addrs_served-Perm (Permᴰ.swap {a' = a'} {b' = b'} {l = l} same same') =
      rw (same, same')
        (append-swap (addrs_of_answer platform cfg d (platform.container_inspect b'.id))
          (addrs_of_answer platform cfg d (platform.container_inspect a'.id))
          (addrs_served platform cfg d l))
  addrs_served-Perm (Permᴰ.trans p q) = Perm.trans (addrs_served-Perm p) (addrs_served-Perm q)

-- What two inspections of a container, at two times, have in common: the configuration, and the address
-- that is found, whatever the order in which Go ranges over the ports; or none has an answer.
pub data IsSameAnswer (cfg : ExtensionConfig) (p q : Platform)
    : Outcome ContainerJson → Outcome ContainerJson → Type 0 where
  both :
      (a b : ContainerJson)
      → a.config ≡ b.config
      → find_backend p cfg.backend_override_address a
        ≡ find_backend q cfg.backend_override_address b
      → IsSameAnswer cfg p q (ok a) (ok b)
  neither : {e f : String} → IsSameAnswer cfg p q (err e) (err f)

module _ (p q : Platform) (cfg : ExtensionConfig) (d : String) where
  addrs_of_info-same :
      (a b : ContainerJson)
      → a.config ≡ b.config
      → find_backend p cfg.backend_override_address a
        ≡ find_backend q cfg.backend_override_address b
      → addrs_of_info p cfg d a ≡ addrs_of_info q cfg d b
  addrs_of_info-same a b same found =
      let routes = ap find_route same in
      elim (Option-cases (find_route b.config)) [
        | inl gone ↦ rw (addrs_of_info, routes ∙ gone, gone) refl
        | inr (route, routed) ↦ rw (addrs_of_info, routes ∙ routed, routed, found) refl
      ]

  addrs_of_answer-same :
      {m n : Outcome ContainerJson}
      → IsSameAnswer cfg p q m n
      → addrs_of_answer p cfg d m ≡ addrs_of_answer q cfg d n
  addrs_of_answer-same (both a b same found) = addrs_of_info-same a b same found
  addrs_of_answer-same neither = refl

  addrs_served-same :
      (cs : List Container)
      → All (λ c. IsSameAnswer cfg p q (p.container_inspect c.id) (q.container_inspect c.id)) cs
      → addrs_served p cfg d cs ≡ addrs_served q cfg d cs
  addrs_served-same [] same = refl
  addrs_served-same (c ∷ cs) (first, others) =
      rw (addrs_of_answer-same first, addrs_served-same cs others) refl

-- Two generations, of two listings of the same containers in different orders, of which each is inspected
-- with the same configuration and found at the same address both times, serve every domain by the
-- same servers, up to their order, if both give a configuration.
pub generate-Perm :
    (p q : Platform) (cfg : ExtensionConfig) (d : String) {cs ds : List Container}
    (config other : Config)
    → Permᴰ cs ds
    → All (λ c. IsSameAnswer cfg p q (p.container_inspect c.id) (q.container_inspect c.id)) cs
    → generate_proxy_config p cfg cs ≡ ok config
    → generate_proxy_config q cfg ds ≡ ok other
    → Perm (servers_under d config.hosts) (servers_under d other.hosts)
generate-Perm p q cfg d {cs} {ds} config other permuted same h k =
    rw
      (
        generate-serves p cfg cs config d h,
        generate-serves q cfg ds other d k,
        addrs_served-same p q cfg d cs same,
      )
      (addrs_served-Perm q cfg d permuted)
