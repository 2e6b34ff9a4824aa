-- ===== src/LoadBalancer.antt =====
-- ext/lb/lb.go: events, the choice of the proxies to restart, and the update of the proxies.
pub mod Restart
pub mod Reload
pub mod Events
pub mod Update
pub mod Templates
pub mod CleanUp
