-- ===== src/Tests/Addresses.antt =====
-- The addresses of network.go.
use interlock_old.Prelude.{String, ◌<>◌, ◌≡◌, refl, ◌↔◌, [], ◌∷◌, ◌==◌, arith, if◌then◌else◌}
use interlock_old.Go.Outcome.{panic}
use interlock_old.Address.{backend_address, find_backend, ports_exposed}
use interlock_old.Address.Laws.{IsFirstPublished, IsReachedAt, backend_address-IsReachedAt}
use interlock_old.Address.Panics.{Returns, NamesUnpublishedPort, find_backend-panic_iff}
use interlock_old.Platform.{ContainerJson, PortBinding}
use interlock_old.Tests.Samples.{platform, configured, inspected, published}

-- The label names the port 8080, which is exposed and not published.
abbrev pub unpublished_info : ContainerJson
unpublished_info =
    inspected "dddddddddddddddd" (configured (("interlock.port", "8080") ∷ []))
      (("80/tcp", published "32768") ∷ ("8080/tcp", []) ∷ [])

unpublished_panics : find_backend platform "" unpublished_info ≡ panic
unfolding find_backend
unpublished_panics = refl

pub platform-Returns : Returns platform
platform-Returns = record {
  container_inspect = λ id h. ground arith;
  network_inspect = λ n h. ground arith;
  parse_cidr = λ s h. ground arith;
}

find_backend-panic_iff_example :
    (find_backend platform "" unpublished_info ≡ panic) ↔ NamesUnpublishedPort unpublished_info
find_backend-panic_iff_example =
    find_backend-panic_iff platform platform-Returns "" unpublished_info

-- The label names the port 8080, which is published second.
abbrev published_info : ContainerJson
published_info =
    inspected "eeeeeeeeeeeeeeee" (configured (("interlock.port", "8080") ∷ []))
      (("80/tcp", published "32768") ∷ ("8080/tcp", published "32769") ∷ [])

backend_address-IsReachedAt_example :
    (first : PortBinding) × (port : String) × IsFirstPublished published_info.ports first
    × IsReachedAt published_info first.host_port port
    × ("10.0.0.9:32769" ≡ (if "" == "" then first.host_ip else "") <> (":" <> port))
unfolding ports_exposed backend_address
backend_address-IsReachedAt_example =
    backend_address-IsReachedAt published_info "" "10.0.0.9:32769" refl refl
