-- ===== src/Routing.antt =====
-- The part of GenerateProxyConfig, the same in ext/lb/nginx and in ext/lb/haproxy, that names the
-- host under which a container is served.
use interlock_old.Prelude.{String, ◌<>◌, ◌&&◌, not, Option, none, some, ◌==◌, if◌then◌else◌}
use interlock_old.Go.Text.{replace}
use interlock_old.Platform.{ContainerConfig}
use interlock_old.Labels

pub record ContextRoot : Type 0 where
  pub name : String
  pub path : String

-- strings.Replace(contextRoot, "/", "_", -1)
unfoldable pub context_root_name : String → String
unfolding replace
context_root_name root = replace b'/' "_" root

pub record Route : Type 0 where
  pub domain : String
  pub context_root : ContextRoot

-- `none` where the container has neither a domain nor a context root, and is passed over.
unfoldable pub find_route : ContainerConfig → Option Route
unfolding Labels.hostname Labels.domain Labels.context_root context_root_name
find_route config =
    let hostname = Labels.hostname config in
    let domain = Labels.domain config in
    let root = Labels.context_root config in
    let name = context_root_name root in
    if domain == "" && root == ""
    then none
    else some (record {
      domain =
          if not (root == "")
          then name
          else if not (hostname == domain) && not (hostname == "")
          then hostname <> ("." <> domain)
          else domain;
      context_root = record { name = name; path = root };
    })
