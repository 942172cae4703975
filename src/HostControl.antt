-- ===== src/HostControl.antt =====
-- The service that starts and stops the machines of one host (core/host-control.cxx).
pub mod Command
pub mod Shell
pub mod Boot
pub mod Guest
pub mod Launch
pub mod Rules
pub mod Released
pub mod Terminate
pub mod Service
pub mod Unlaunched
pub mod Freed
mod Examples
