-- ===== src/Client.antt =====
-- internal/client: the parts of the client, one module for each of its files or commands.
pub mod Transfer
pub mod Sync
pub mod Start
pub mod Session
pub mod Call
pub mod Repl
pub mod Grep
pub mod Copy
pub mod Stdin
pub mod Exec
pub mod Handshake
pub mod Paths
