-- ===== src/Client.antt =====
-- internal/client: the clients, their identifiers and their storage.
pub mod Identifiable
pub mod HumanId
pub mod Domains
pub mod Static
pub mod Queue
pub mod Autodevice
pub mod Storage
pub mod Sources
pub mod Rdns
