-- ===== src/Units.antt =====
-- Sizes with units: the Memory, Bandwidth and Latency classes of core/blueprint.hxx and
-- core/blueprint.cxx. Each unit is an enumeration with the words that its JSON form uses.
pub mod Memory
pub mod Bandwidth
pub mod Latency
pub mod Literals
pub mod Words
pub mod Scale
mod Examples
