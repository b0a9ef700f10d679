-- ===== src/Cache.antt =====
-- common/cache: the sizes and levels of the caches that the operating system reports.
pub mod Sizes
pub mod Capacity
pub mod Formats
pub mod Levels
pub mod Detected
pub mod Tests
pub mod Ring
pub mod Chase
pub mod Curve
pub mod Report
pub mod Sweep
pub mod Sysfs
pub mod Groups
pub mod Cycle
pub mod Grid
pub mod Region
