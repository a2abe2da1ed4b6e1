-- ===== src/Cmd/Service.antt =====
-- internal/cmd: the service of the operating system and the services that the program runs.
pub mod Status
pub mod Lines
pub mod Systemd
pub mod Launchd
pub mod Control
pub mod Reports
pub mod Shutdown
pub mod Start
pub mod Stopping
