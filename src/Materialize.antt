-- ===== src/Materialize.antt =====
-- Materialization: the ids that hosts number things by (core/util.hxx, used by core/host-control.cxx),
-- and what the service does with a blueprint (core/materialization-service.cxx).
pub mod Ids
pub mod IdLaws
pub mod Numbering
pub mod Race
pub mod Addresses
pub mod AddressLaws
pub mod Construct
pub mod Commands
mod Examples
