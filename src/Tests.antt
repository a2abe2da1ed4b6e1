-- ===== src/Tests.antt =====
-- Runs of the theorems at concrete values, one module for each part.
pub mod Library
pub mod Names
pub mod Clients
pub mod Migration
pub mod Building
pub mod Rdns
pub mod Logging
pub mod Services
pub mod Serving
pub mod Syslog
pub mod Programs
