-- ===== src/Tests.antt =====
-- Runs of the theorems at concrete inputs.
mod Streams
mod Files
mod Commands
mod Sessions
mod Connections
mod Clients
mod Containers
mod Execs
mod Syncs
mod CommandLine
mod Repls
mod Searches
mod Ensures
mod Services
mod Reports
