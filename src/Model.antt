-- ===== src/Model.antt =====
-- util/intop/model.py: the class `PNAModel`, part by part.
mod Tests
pub mod Address
pub mod Pattern
pub mod Filter
pub mod Derive
pub mod Time
pub mod Label
pub mod Rank
pub mod State
