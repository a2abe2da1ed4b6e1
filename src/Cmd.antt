-- ===== src/Cmd.antt =====
-- internal/cmd: the configuration of the program.
pub mod Upstream
pub mod Build
pub mod Clients
pub mod Config
pub mod Internal
pub mod Env
pub mod Default
pub mod Log
pub mod Service
pub mod Program
