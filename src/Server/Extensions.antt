-- ===== src/Server/Extensions.antt =====
-- loadExtensions of server/server.go, with the parts of NewLoadBalancer (ext/lb/lb.go) and NewBeacon
-- (ext/beacon/beacon.go) that can fail.
pub mod Loaded
use Prim.Native.Char.{Char, code}
use Prim.Native.String.{[], ◌∷◌}
use interlock_old.Prelude.{
  ℕ, zero, suc, String, ◌<>◌, Bool, true, false, ◌&&◌, ◌||◌, not, List, [], ◌∷◌, Option, none, some,
  ◌==◌, eqb, if◌then◌else◌,
}
use interlock_old.Prelude.Int.{ℤ, pos, negsuc}
use interlock_old.Go.Outcome.{Outcome, ok, err, panic, ◌>>=◌}
use interlock_old.Go.FilePath.{dir}
use interlock_old.Config
use interlock_old.Config.{ExtensionConfig}

translate : String → String → Char → Char
translate (u ∷ upper) (l ∷ lower) c =
    let later = translate upper lower c in if eqb (code u) (code c) then l else later
translate upper lower c = c

-- strings.ToLower, of ASCII letters
unfoldable pub to_lower : String → String
unfolding translate
to_lower [] = []
to_lower (c ∷ s) =
    translate "ABCDEFGHIJKLMNOPQRSTUVWXYZ" "abcdefghijklmnopqrstuvwxyz" c ∷ to_lower s

-- What the constructors ask of the host: whether os.Stat finds the template, the cache, GetContainerID, and
-- time.ParseDuration, in nanoseconds.
pub record Host : Type 0 where
  pub is_file : String → Bool
  pub new_cache : Outcome (Unit {0})
  pub container_id : Outcome String
  pub parse_duration : String → Outcome ℤ

pub data Extension : Type 0 where
  load_balancer : String → String → ExtensionConfig → Extension  -- the backend, the node's ID
  beacon : String → ExtensionConfig → Extension

-- The choice of the backend by the name, in its own case.
unfoldable pub new_backend : String → Outcome String
new_backend name =
    if name == "haproxy"
    then ok "haproxy"
    else if name == "nginx"
    then ok "nginx"
    else err ("unknown load balancer backend: " <> name)

-- A missing template ends the program, as a panic does.
unfoldable pub check_template : Host → ExtensionConfig → Outcome (Unit {0})
check_template host c =
    if not (c.template_path == "") && not (host.is_file c.template_path) then panic else ok tt

unfoldable pub with_base_path : ExtensionConfig → ExtensionConfig
unfolding dir
with_base_path c = record c { config_base_path = dir c.config_path }

unfoldable pub new_load_balancer : Host → ExtensionConfig → Outcome Extension
unfolding new_backend check_template with_base_path
new_load_balancer host c = do
  _ ← check_template host c
  _ ← host.new_cache
  id ← host.container_id
  backend ← new_backend c.name
  ok (load_balancer backend id (with_base_path c))

-- time.NewTicker panics at an interval that is not positive.
unfoldable pub new_ticker : ℤ → Outcome (Unit {0})
new_ticker (pos zero) = panic
new_ticker (pos (suc n)) = ok tt
new_ticker (negsuc n) = panic

unfoldable pub new_beacon : Host → ExtensionConfig → Outcome Extension
unfolding new_ticker with_base_path
new_beacon host c = do
  id ← host.container_id
  d ← host.parse_duration c.stats_interval
  _ ← new_ticker d
  ok (beacon id (with_base_path c))

-- An error is logged, and the loop goes on.
unfoldable pub loaded_or_none : Outcome Extension → Outcome (Option Extension)
loaded_or_none (ok x) = ok (some x)
loaded_or_none (err e) = ok none
loaded_or_none panic = panic

unfoldable pub load_extension : Host → Bool → ExtensionConfig → Outcome (Option Extension)
unfolding to_lower new_load_balancer new_beacon loaded_or_none
load_extension host enable_metrics c =
    let name = to_lower c.name in
    if name == "haproxy" || name == "nginx"
    then loaded_or_none (new_load_balancer host c)
    else if name == "beacon"
    then (if enable_metrics then loaded_or_none (new_beacon host c) else ok none)
    else ok none

unfoldable pub append_loaded : Option Extension → List Extension → List Extension
append_loaded none xs = xs
append_loaded (some x) xs = x ∷ xs

unfoldable pub load_all : Host → Bool → List ExtensionConfig → Outcome (List Extension)
unfolding load_extension append_loaded
load_all host enable_metrics [] = ok []
load_all host enable_metrics (c ∷ cs) = do
  x ← load_extension host enable_metrics c
  xs ← load_all host enable_metrics cs
  ok (append_loaded x xs)

unfoldable pub load_extensions : Host → Config.Config → Outcome (List Extension)
unfolding load_all
load_extensions host cfg = load_all host cfg.enable_metrics cfg.extensions
