-- ===== src/Topo.antt =====
-- The hardware of a testbed site: core/topo.hxx and core/topo.cxx. An object behind a shared_ptr is
-- a value here: an operation returns the object that it leaves behind.
pub mod Switch
pub mod Host
pub mod Testbed
pub mod Connected
pub mod Removing
pub mod Reach
mod Examples
