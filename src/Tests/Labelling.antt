-- ===== src/Tests/Labelling.antt =====
-- The labels of ext/lb/utils.
use interlock_old.Prelude.{◌≡◌, refl, [], ◌∷◌}
use interlock_old.Prelude.Int.{negsuc}
use interlock_old.Go.Outcome.{ok}
use interlock_old.Go.Text.{atoi}
use interlock_old.Labels.{alias_domains, health_check_interval}
use interlock_old.Tests.Samples.{configured, second_info}

aliases : alias_domains second_info.config ≡ "www.local" ∷ []
unfolding alias_domains
aliases = refl

negative_interval :
    health_check_interval (configured (("interlock.health_check_interval", "-5") ∷ []))
    ≡ ok (negsuc 4)
unfolding health_check_interval atoi
negative_interval = refl
