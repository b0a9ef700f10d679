-- ===== src/Lib.antt =====
-- A verification library for cpufb, which measures what a CPU can do: how fast its instructions,
-- caches and memory are. A front end for each architecture (x64, arm64, riscv64) reads the
-- command line, registers its benchmarks in a catalog, runs the ones that the filters let through
-- on a pool of pinned threads, and prints and saves tables. The parts that the front ends share
-- stand under common/, and are what is modelled here.
--
-- How the parts interact: `parse_cli_options` reads the CPUs with `parse_thread_pool`, and the
-- front end makes a pool of workers for them with `tpool_create`. A benchmark is a job that
-- `tpool_run_all` runs once on every worker. Its results become rows of `Table`, which
-- `print_and_save_benchmark_tables` prints and writes to a file. What the pool saw of the CPUs is
-- reported by `record_migration_information`. The latency curve is measured on a ring of
-- dependent loads; its levels go into the report of the caches, beside what `cache_topology` reads
-- from the operating system, and the deepest of them bounds the streams of `run_memory_bandwidth`.
--
-- Files and the code that they are about:
--   Base, Base/Tests, Base/Lists: names of the libraries, Boolean tests, lists with native
--     lengths.
--   Text/Decimal, Text/Strtoull: `isdigit`, `std::to_string` and `std::strtoull` of the standard
--     library, as far as the code uses them, with errno and the value on overflow.
--   Text/Bytes, Text/Trim: `strncmp`, `find` and the trimming of common/cli.cpp and
--     common/cache/cache_topology.cpp. Text/StringSet: `std::set<std::string>` as an ascending
--     list.
--   Table: common/table.cpp. Table/Layout, Table/Printed and Table/Narrow are about its widths and
--     lines, Table/Csv about what it writes, against Table/Reader, a reader of CSV after RFC 4180.
--   ThreadPool/Parse: `parse_thread_pool` of common/sys/thread_pool.cpp. Grammar is its language,
--     Sound, Complete, Language and Lists what it accepts.
--   ThreadPool/Machine: the critical sections of `tpool_worker`. A step of a worker is what it
--     does from one acquisition of the mutex, or from a wait, to the next. ThreadPool/Client:
--     those of `tpool_create`, `tpool_add_work`, `tpool_wait`, `tpool_run_all` and
--     `tpool_destroy`, and the steps of the whole system in any order. Invariant, Sections,
--     Tally, Preserved, Calls and Barrier keep an invariant along the steps, Runs draws the
--     conclusions, Counters is about what was observed of the CPUs, and Schedule runs a list of
--     steps. ThreadPool/Queue: the linked list of the work items on a heap, which Nodes, Refines,
--     Steps and Histories set beside a list of items.
--   Cli/Options, Cli/Numbers, Cli/Arguments, Cli/Parse: the data of common/cli.hpp and
--     `parse_cli_options` of common/cli.cpp. Cli/Filter: the filters and the checks on the
--     options. Cli/Valid, Cli/Modes, Cli/Known and Cli/Checks are about them.
--   Cli/Catalog: `BenchmarkInfo`, `pair_benchmark_latencies` and the search for an instruction.
--     Cli/Pairs, Cli/Pairing and Cli/Paired follow the pairs through its loops.
--   Cli/Prefix: `format_thread_pool_prefix`. Cli/Report: the printed lists, the tables of the
--     categories and `save_table_sections`; Cli/Saved and Cli/Listing are about them.
--     Cli/Migration: `record_migration_information`. Cli/System: `populate_system_info_table` of
--     common/sys/system_info.cpp and `print_system_information`. Cli/Sweep: `run_instruction_sweep`,
--     with SweepRows about its rows.
--   Cache/Sizes, Cache/Capacity, Cache/Formats: the texts of cache sizes in
--     common/cache/cache_topology.cpp. Cache/Levels, Cache/Detected: the choice of a cache.
--     Cache/Sysfs: the files of Linux and `count_cpu_list`, with Counted about it.
--   Cache/Ring, Cache/Groups, Cache/Cycle: `build_ring_order` of common/cache/cache_curve.cpp.
--     Cache/Grid: `build_cache_curve_sizes`. Cache/Region: `choose_region_bytes` and
--     `ring_group_lines`. Cache/Chase: the ring that `measure_pointer_chase` writes into its buffer,
--     with Links, Counts, Slots and Ring about the walk over it. Cache/Curve, Curve/Estimate:
--     `find_plateaus` and `estimate_cache_levels`, with Median, Steady and Ordered about them.
--   Cache/Report: `CacheData`, `assign_curve` and `read_reported_cache` of
--     common/cache/cache_report.cpp; Report/Rows its rows, Report/Doubt what
--     common/cache/cache_curve.cpp says of a curve, and Report/Verdicts the verdicts of
--     common/cache/cache_topology.cpp. Names, Described, Deeper, Assigned and Reported are about
--     `assign_curve`. Cache/Sweep: `measure_cache_curve`, with Swept about its points and Composed
--     about the report of its curve.
--   Integers, Doubles: `int` and its casts, and `double` as an argument.
--   Bandwidth/Workset, Bandwidth/Streams, Bandwidth/Measure, Bandwidth/Rows, Bandwidth/Run:
--     common/cache/memory_bandwidth.cpp: the sizes of the streams, the actions of the kernels and the
--     workers, the medians, the rows of the cache table and `run_memory_bandwidth`. Within, Slices,
--     Released and Added are about them.
--   The modules Tests and Examples run the definitions on concrete data.
--
-- How state and operations correspond to the code: an object that a method changes is a record
-- that the function takes and returns; a function that returns `false` with a message returns
-- `Result`, or `none` where no message matters; a read behind the end of a vector is `none`.
-- Texts are lists of bytes without the terminator, numbers are natural numbers, and a cast or a
-- product in a type of 32 or 64 bits is taken modulo 2^32 or 2^64. The widths of a table and the
-- count of `count_cpu_list` are in `int`, whose overflow is `none`; the counters of the pool wrap
-- around. What is printed is returned as lines.
--
-- Fuel: the loops of `parse_thread_pool` and `count_cpu_list` have the length of the text, since
-- a round reads a byte; the digits of a number n are printed with fuel n, since a round divides by
-- ten; the loops of `pair_benchmark_latencies` and `run_instruction_sweep` have their number of
-- rounds; the base of `build_cache_curve_sizes` doubles from 2^12, so that 64 rounds pass any bound below 2^63, and
-- from 2^63 on the base would wrap to 0; the region of `choose_region_bytes` halves from 2^30, so
-- that 32 rounds bring it to 0; the loop of `tpool_destroy` over its queue has the number of queued
-- items, and the outer loop of `find_plateaus` the number of points, where running out is `none`, as
-- a read out of bounds is. The step relation of the pool has no bound, but the
-- 64-bit generation and counters must not wrap around: the theorems of Runs are about fewer than
-- 2^64 - 1 published jobs, that of Migration about fewer than 2^64 seen jobs and items.
--
-- Arguments of the model: the answers of the operating system in a step of the pool (whether a
-- thread could be pinned, and on which CPU it runs), whether an output file opens, the table with
-- the system information, the list of caches that the operating system reports, for the sweep the
-- operations on `double` and the two callbacks, and for the ring `std::shuffle` with its
-- generator, of which the theorem assumes that it permutes; for the queue the addresses that
-- `malloc` answers with; for the curve what each chase measures and the functions of <cmath>; for
-- the bandwidth streams what allocations, kernels, clocks and cycle counters answer, and the amount
-- of memory.
--
-- Not modelled: a failing `pthread_create`; `read_linux_data_caches`, sysctl and the Windows
-- calls; the usage text; the timing of samples, `measure_memory_latency` and the tables that are
-- printed of a curve; common/cache/cache_bandwidth.cpp, common/benchmark_tables.cpp and what
-- common/sys/system_info.cpp collects; the probes under common/cache and common/issue, which are
-- mostly timed loops over memory; and the kernels and front ends under x64, arm64 and riscv64.
pub mod Base
pub mod Text
pub mod Table
pub mod ThreadPool
pub mod Cli
pub mod Cache
pub mod Doubles
pub mod Bandwidth
pub mod Integers
