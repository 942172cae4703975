-- ===== src/Json.antt =====
-- The values of the program as JSON: `json` and `fromJson` of its classes.
pub mod Object
pub mod Values
pub mod Parts
pub mod ValueLaws
pub mod ListLaws
pub mod PartLaws
pub mod Wholes
pub mod WholeLaws
pub mod InRange
pub mod Built
pub mod Made
pub mod Severed
pub mod Unplaceable
mod Examples
