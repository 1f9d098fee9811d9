-- ===== src/Filter.antt =====
-- The filters of a query: `include/filter/`.
pub mod Ids
pub mod Bloom
pub mod Labels
pub mod Attributes
pub mod Text
pub mod Ended
pub mod Prefix
pub mod Like
pub mod Selector
pub mod Sql
pub mod Compile
pub mod Tests
