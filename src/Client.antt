-- ===== src/Client.antt =====
-- The client of the testbed (core/client.cxx).
pub mod Machine
pub mod Requests
pub mod Compile
pub mod Main
pub mod Usage
pub mod Remote
pub mod Saved
mod Examples
