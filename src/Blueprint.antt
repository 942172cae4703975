-- ===== src/Blueprint.antt =====
-- The data model of an experiment: core/blueprint.hxx and core/blueprint.cxx. An object behind a
-- shared_ptr is a value here: an operation returns the object that it leaves behind.
pub mod Interface
pub mod Network
pub mod Computer
pub mod HwSpec
pub mod Links
pub mod Store
pub mod Edits
pub mod Graph
pub mod Compare
pub mod Removal
pub mod Connecting
pub mod Reachable
mod Examples
