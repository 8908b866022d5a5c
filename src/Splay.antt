-- ===== src/Splay.antt =====
-- src/nexus/common/value_ranked_splay_map.h: a map whose entries are also ranked by value.
pub mod Tree
pub mod Order
pub mod Locate
pub mod Size
pub mod Map
pub mod Contents
pub mod Cut
pub mod Removal
pub mod Search
pub mod Refinement
pub mod Reads
pub mod Keys
pub mod Values
mod Tests
