-- ===== src/Tests.antt =====
-- Runs at fixed inputs, and the theorems with hypotheses at inputs that meet them.
mod Samples
mod Configs
mod Labelling
mod Addresses
mod NginxRuns
mod HaproxyRuns
mod Restarts
mod Rounds
mod Beacons
mod Servers
mod Commands
mod Collections
mod HaproxyRounds
mod Printing
