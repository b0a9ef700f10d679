-- ===== src/ThreadPool.antt =====
-- common/sys/thread_pool.hpp and common/sys/thread_pool.cpp.
pub mod Parse
pub mod Grammar
pub mod Complete
pub mod Sound
pub mod Language
pub mod Machine
pub mod Client
pub mod Queue
pub mod Invariant
pub mod Sections
pub mod Preserved
pub mod Tally
pub mod Calls
pub mod Barrier
pub mod Runs
pub mod Counters
pub mod Schedule
pub mod Tests
pub mod Lists
