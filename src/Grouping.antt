-- ===== src/Grouping.antt =====
-- The groupings of entries, data-model/src/grouping/.
pub mod Range
pub mod Area
pub mod Range3d
pub mod AreaMap
pub mod NamespacedAreaMap
mod Tests
