-- ===== src/Cli.antt =====
-- common/cli.hpp and common/cli.cpp: the command line, the filters, the catalog of benchmarks and
-- the tables that are printed and saved.
pub mod Options
pub mod Numbers
pub mod Arguments
pub mod Parse
pub mod Filter
pub mod Valid
pub mod Modes
pub mod Known
pub mod Checks
pub mod Catalog
pub mod Pairs
pub mod Pairing
pub mod Paired
pub mod Prefix
pub mod Report
pub mod Saved
pub mod Listing
pub mod Migration
pub mod System
pub mod Sweep
pub mod SweepRows
pub mod Tests
pub mod Examples
