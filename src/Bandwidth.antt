-- ===== src/Bandwidth.antt =====
-- common/cache/memory_bandwidth.hpp and .cpp: the streams that measure the L3 cache and the memory.
pub mod Workset
pub mod Within
pub mod Streams
pub mod Measure
pub mod Slices
pub mod Rows
pub mod Run
pub mod Tests
pub mod Added
pub mod Released
