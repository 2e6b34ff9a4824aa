-- ===== src/Address/Panics.antt =====
-- When the search for a container's address panics.
use interlock_old.Prelude.{String, ◌≡◌, ◌≢◌, ◌↔◌, inl, inr, true, none, some, arith, Option-cases}
use interlock_old.Go.Outcome.{panic, Outcome-cases}
use interlock_old.Go.Maps.{lookup}
use interlock_old.Platform.{Platform, ContainerJson, NetworkResource}
use interlock_old.Ext
use interlock_old.Address.{
  overlay_enabled, backend_overlay_address, backend_address, ports_exposed, find_backend,
}
use interlock_old.Address.Laws.{FirstIsUnpublished, backend_address-panic_iff}

-- The engine's client and net.ParseCIDR return a value or an error.
pub record Returns (platform : Platform) : Type 0 where
  pub container_inspect : (id : String) → platform.container_inspect id ≢ panic
  pub network_inspect : (name : String) → platform.network_inspect name ≢ panic
  pub parse_cidr : (cidr : String) → platform.parse_cidr cidr ≢ panic

-- The container is not on an overlay network, some port of it is published, and its label
-- interlock.port names a port of which the first is not.
abbrev pub NamesUnpublishedPort : ContainerJson → Type 0
NamesUnpublishedPort info =
    (wanted : String) × (overlay_enabled info.config ≡ none)
    × (ports_exposed info.ports ≡ true)
    × (lookup Ext.port_label info.config.labels ≡ some wanted)
    × FirstIsUnpublished wanted info.ports_again

module _ (platform : Platform) (returns : Returns platform) where
  backend_overlay_address-ne-panic :
      (network : NetworkResource) (info : ContainerJson)
      → backend_overlay_address platform network info ≢ panic
  unfolding backend_overlay_address
  backend_overlay_address-ne-panic network info h =
      elim (Option-cases (lookup info.id network.containers)) [
        | inl gone ↦ absurd (ground arith)
        | inr (cidr, found) ↦ ground (arith, returns.parse_cidr cidr)
      ]

  module _ (override : String) (info : ContainerJson) where
    find_backend-panic : find_backend platform override info ≡ panic → NamesUnpublishedPort info
    unfolding find_backend
    find_backend-panic h = elim (Option-cases (overlay_enabled info.config)) [
      | inr (n, overlay) ↦ elim (Outcome-cases (platform.network_inspect n)) [
        | inl (network, answered) ↦
            absurd (ground (arith, backend_overlay_address-ne-panic network info))
        | inr (inl (e, failed)) ↦ absurd (ground arith)
        | inr (inr p) ↦ absurd (returns.network_inspect n p)
      ]
      | inl none_given ↦
          let p : backend_address info override ≡ panic = ground arith in
          let (wanted, at, first) = (backend_address-panic_iff info override).0 p in
          (wanted, none_given, ground arith, at, first)
    ]

    -- If the calls of the engine and of net.ParseCIDR do not panic, the search for a container's
    -- address panics exactly where the container is on no overlay network, has a published port,
    -- and names by interlock.port a number whose first port, in the order in which Go ranges over the
    -- ports for it, is exposed and not published.
    pub find_backend-panic_iff :
        (find_backend platform override info ≡ panic) ↔ NamesUnpublishedPort info
    unfolding find_backend
    find_backend-panic_iff = (
      find_backend-panic,
      λ t.
          let p : backend_address info override ≡ panic =
            (backend_address-panic_iff info override).1 (t.0, t.3, t.4) in
          rw (t.1, find_backend) (rw (t.2, p)),
    )
