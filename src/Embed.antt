-- ===== src/Embed.antt =====
-- The placement of experiments on the hardware: core/embed.hxx and core/embed.cxx.
pub mod Load
pub mod Chart
pub mod Overview
pub mod Pack
pub mod Fill
pub mod Algorithm
pub mod Unembed
pub mod Packing
pub mod Filling
pub mod Safety
pub mod Order
pub mod Fuel
pub mod Overload
pub mod Keyed
pub mod KeptKeys
mod Examples
