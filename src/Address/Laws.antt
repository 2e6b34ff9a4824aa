-- ===== src/Address/Laws.antt =====
-- When an address is found, which one it is, and when the search panics.
use interlock_old.Prelude.{
  String, ◌<>◌, ◌≡◌, ◌≢◌, ◌↔◌, ◌⊎◌, inl, inr, refl, sym, ap, true, none, some, List, [], ◌∷◌, ◌++◌,
  All, arith, ◌==◌, eq_iff, Bool-cases, Option-cases, if◌then◌else◌,
}
use interlock_old.Go.Outcome.{ok, panic, >>=-eq-ok, ok-injective}
use interlock_old.Go.Text.{first_part}
use interlock_old.Go.Maps.{lookup}
use interlock_old.Platform.{ContainerJson, PortMap, PortBinding}
use interlock_old.Ext
use interlock_old.Address.{
  first_host_port, custom_port, backend_address, first_published, ports_exposed,
}

-- The first port with the wanted number is exposed and published nowhere.
pub record FirstIsUnpublished (wanted : String) (ports : PortMap) : Type 0 where
  pub before : PortMap
  pub port : String
  pub after : PortMap
  pub split : ports ≡ before ++ ((port, []) ∷ after)
  pub number : first_part b'/' port ≡ wanted
  pub others : All (λ p. first_part b'/' p.0 ≢ wanted) before

module _ (wanted port : String) where
  custom_port-panic :
      (ports : PortMap) → custom_port wanted port ports ≡ panic → FirstIsUnpublished wanted ports
  unfolding custom_port
  custom_port-panic [] h = cc
  custom_port-panic ((k, []) ∷ ports) h = elim (Bool-cases (first_part b'/' k == wanted)) [
    | inl hit ↦ record {
      before = [];
      port = k;
      after = ports;
      split = refl;
      number = (eq_iff _ _).0 hit;
      others = tt;
    }
    | inr miss ↦
        let r = custom_port-panic ports (rw (miss, custom_port) at h) in
        record {
          before = (k, []) ∷ r.before;
          port = r.port;
          after = r.after;
          split = ap (λ l. (k, []) ∷ l) r.split;
          number = r.number;
          others = (λ p. cc (miss, (eq_iff _ _).1 p), r.others);
        }
  ]
  custom_port-panic ((k, b ∷ bs) ∷ ports) h = elim (Bool-cases (first_part b'/' k == wanted)) [
    | inl hit ↦ absurd (ground arith)
    | inr miss ↦
        let r = custom_port-panic ports (rw (miss, custom_port) at h) in
        record {
          before = (k, b ∷ bs) ∷ r.before;
          port = r.port;
          after = r.after;
          split = ap (λ l. (k, b ∷ bs) ∷ l) r.split;
          number = r.number;
          others = (λ p. cc (miss, (eq_iff _ _).1 p), r.others);
        }
  ]

  panic_of_FirstIsUnpublished :
      (before after : PortMap) (k : String)
      → first_part b'/' k ≡ wanted
      → All (λ p. first_part b'/' p.0 ≢ wanted) before
      → custom_port wanted port (before ++ ((k, []) ∷ after)) ≡ panic
  unfolding custom_port
  panic_of_FirstIsUnpublished [] after k number others =
      rw ((eq_iff (first_part b'/' k) wanted).1 number)
  panic_of_FirstIsUnpublished ((j, x) ∷ before) after k number (other, others) =
      let rest = panic_of_FirstIsUnpublished before after k number others in
      ground (arith, eq_iff (first_part b'/' j) wanted)

-- The address of a published container cannot be found, and Interlock panics, exactly where the
-- label interlock.port is given and the first exposed port with its number is not published.
pub backend_address-panic_iff :
    (info : ContainerJson) (override : String)
    → (backend_address info override ≡ panic) ↔ (
        (wanted : String) × (lookup Ext.port_label info.config.labels ≡ some wanted)
        × FirstIsUnpublished wanted info.ports_again)
unfolding backend_address
backend_address-panic_iff info override = (
  λ h. elim (Option-cases (lookup Ext.port_label info.config.labels)) [
    | inl gone ↦ absurd (ground arith)
    | inr (wanted, at) ↦ (
      wanted,
      at,
      custom_port-panic wanted (first_published info.ports).host_port info.ports_again
          (ground arith),
    )
  ],
  λ t.
      let u = t.2 in
      let p =
        panic_of_FirstIsUnpublished t.0 (first_published info.ports).host_port u.before u.after
          u.port u.number u.others in
      let e = rw (← u.split) at p in ground arith,
)

-- The first port that is published, with its first address.
pub record IsFirstPublished (ports : PortMap) (binding : PortBinding) : Type 0 where
  pub before : PortMap
  pub port : String
  pub more : List PortBinding
  pub after : PortMap
  pub split : ports ≡ before ++ ((port, binding ∷ more) ∷ after)
  pub unpublished : All (λ p. p.1 ≡ []) before

first_published-IsFirst :
    (ports : PortMap) → ports_exposed ports ≡ true → IsFirstPublished ports (first_published ports)
unfolding ports_exposed first_published
first_published-IsFirst [] h = cc
first_published-IsFirst ((k, []) ∷ ports) h =
    let r = first_published-IsFirst ports h in
    record {
      before = (k, []) ∷ r.before;
      port = r.port;
      more = r.more;
      after = r.after;
      split = ap (λ l. (k, []) ∷ l) r.split;
      unpublished = (refl, r.unpublished);
    }
first_published-IsFirst ((k, b ∷ bs) ∷ ports) h = record {
  before = [];
  port = k;
  more = bs;
  after = ports;
  split = refl;
  unpublished = tt;
}

-- The first port with the wanted number is published, and first at this host port.
pub record FirstIsAt (wanted : String) (ports : PortMap) (host_port : String) : Type 0 where
  pub before : PortMap
  pub port : String
  pub binding : PortBinding
  pub more : List PortBinding
  pub after : PortMap
  pub split : ports ≡ before ++ ((port, binding ∷ more) ∷ after)
  pub number : first_part b'/' port ≡ wanted
  pub others : All (λ p. first_part b'/' p.0 ≢ wanted) before
  pub at : binding.host_port ≡ host_port

FirstIsAt-later :
    {wanted host_port : String} {ports : PortMap} (e : String × List PortBinding)
    → first_part b'/' e.0 ≢ wanted
    → FirstIsAt wanted ports host_port
    → FirstIsAt wanted (e ∷ ports) host_port
FirstIsAt-later e other r = record {
  before = e ∷ r.before;
  port = r.port;
  binding = r.binding;
  more = r.more;
  after = r.after;
  split = ap (λ l. e ∷ l) r.split;
  number = r.number;
  others = (other, r.others);
  at = r.at;
}

first_host_port-at :
    (wanted k p : String) (x : List PortBinding) (ports : PortMap)
    → first_part b'/' k ≡ wanted
    → first_host_port x ≡ ok p
    → FirstIsAt wanted ((k, x) ∷ ports) p
unfolding first_host_port
first_host_port-at wanted k p [] ports number h = cc h
first_host_port-at wanted k p (b ∷ bs) ports number h = record {
  before = [];
  port = k;
  binding = b;
  more = bs;
  after = ports;
  split = refl;
  number = number;
  others = tt;
  at = ok-injective h;
}

custom_port-cases :
    (wanted port p : String) (ports : PortMap)
    → custom_port wanted port ports ≡ ok p
    → (All (λ e. first_part b'/' e.0 ≢ wanted) ports × (p ≡ port)) ⊎ FirstIsAt wanted ports p
unfolding custom_port first_host_port
custom_port-cases wanted port p [] h = inl (tt, sym (ok-injective h))
custom_port-cases wanted port p ((k, x) ∷ ports) h =
    elim (Bool-cases (first_part b'/' k == wanted)) [
      | inl hit ↦
          inr (
            first_host_port-at wanted k p x ports ((eq_iff _ _).0 hit) (rw (hit, custom_port) at h))
      | inr miss ↦
          let other : first_part b'/' k ≢ wanted = λ same. cc (miss, (eq_iff _ _).1 same) in
          elim (custom_port-cases wanted port p ports (rw (miss, custom_port) at h)) [
            | inl (none_wanted, same) ↦ inl ((other, none_wanted), same)
            | inr r ↦ inr (FirstIsAt-later (k, x) other r)
          ]
    ]

-- The host port of a container whose first published port is at `first`.
pub data IsReachedAt (info : ContainerJson) (first : String) : String → Type 0 where
  unlabelled : lookup Ext.port_label info.config.labels ≡ none → IsReachedAt info first first
  unmatched :
      (wanted : String)
      → lookup Ext.port_label info.config.labels ≡ some wanted
      → All (λ e. first_part b'/' e.0 ≢ wanted) info.ports_again
      → IsReachedAt info first first
  matched :
      {port : String} (wanted : String)
      → lookup Ext.port_label info.config.labels ≡ some wanted
      → FirstIsAt wanted info.ports_again port
      → IsReachedAt info first port

-- An address that is found for a container with a published port is the override address, or else that
-- of the first published port, with a host port: the first of the first port whose number is that of
-- the label interlock.port, or that of the first published port where there is no label or no such
-- port.
pub backend_address-IsReachedAt :
    (info : ContainerJson) (override addr : String)
    → ports_exposed info.ports ≡ true
    → backend_address info override ≡ ok addr
    → (first : PortBinding) × (port : String) × IsFirstPublished info.ports first
      × IsReachedAt info first.host_port port
      × (addr ≡ (if override == "" then first.host_ip else override) <> (":" <> port))
unfolding backend_address
backend_address-IsReachedAt info override addr exposed h =
    let first = first_published-IsFirst info.ports exposed in
    elim (Option-cases (lookup Ext.port_label info.config.labels)) [
      | inl gone ↦ (_, _, first, unlabelled gone, ground arith)
      | inr (wanted, at) ↦
          let (p, found, same) =
            >>=-eq-ok (custom_port wanted (first_published info.ports).host_port info.ports_again) _
              (rw (at, backend_address) at h) in
          elim (custom_port-cases wanted _ p info.ports_again found) [
            | inl (unwanted, same_port) ↦ (
              _,
              _,
              first,
              unmatched wanted at unwanted,
              rw same_port at (sym (ok-injective same)),
            )
            | inr r ↦ (_, p, first, matched wanted at r, sym (ok-injective same))
          ]
    ]
