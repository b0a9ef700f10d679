-- ===== src/Bandwidth/Rows.antt =====
-- common/cache/memory_bandwidth.cpp, and describe_write_allocate of common/cache/cache_topology.cpp: the
-- rows of the cache table. The measurement is a function of the kernel, the workset and the number of
-- passes, which differ from call to call; `none` is a kernel that an architecture does not have.
use cpufb.Base.{
  ℕ, ◌-◌, ◌*◌, ◌/◌, List, [], ◌∷◌, ◌++◌, Option, none, some, not, ◌||◌, Bytes, codes, ltb, ◌==◌,
  if◌then◌else◌, ◌>>=◌, length, replicate, take, get_elem?,
}
use cpufb.Text.Decimal.{to_string}
use cpufb.Table.{Table, add_one_item}
use cpufb.Cache.Sizes.{format_cache_capacity}
use cpufb.Doubles.{Doubles, at_most}
use cpufb.Bandwidth.Workset.{Workset}
use cpufb.Bandwidth.Streams.{KernelSpec, BandwidthReport, Outcome, measured, failed}

-- A row of as many cells as the table has columns, the first ones written; `none` is a write behind
-- its end.
unfoldable pub row_of : Table → List Bytes → Option (List Bytes)
row_of table cells =
    if ltb table.col (length cells)
    then none
    else some (cells ++ replicate (table.col - length cells) [])

unfoldable pub add_row : Table → List Bytes → Option Table
unfolding row_of
add_row table cells = do row ← row_of table cells; add_one_item table row

-- append_cache_bandwidth_failure_row, whose text is in the last cell; without a column, the write of the
-- item is behind the end.
unfoldable pub append_failure_row : Table → Bytes → Option Table
append_failure_row table item =
    let front = take (table.col - 1) (item ∷ replicate (table.col - 1) (codes "-")) in
    if table.col == 0
    then none
    else add_one_item table (front ++ codes "not measured (see stderr)" ∷ [])

unfoldable pub memory_item : Bytes → ℕ → Bytes
memory_item what streams =
    codes "Memory " ++ (if ltb 1 streams then codes "aggregate " else []) ++ what

-- The CPUs of a row: one by its number, more by theirs.
unfoldable pub cores_text : ℕ → List ℕ → Option Bytes
cores_text count cpus = do
  front ← get_elem? cpus 0
  some (if count == 1 then codes "core " ++ to_string front else to_string count ++ codes " cores")

module _ {ℓ} {F : Type ℓ} (fl : Doubles F) where
  unfoldable pub format_cache_measurement_details : BandwidthReport F → Bytes
  format_cache_measurement_details report =
      codes "min/max "
      ++ fl.fixed 3 report.minimum_gb_per_second
      ++ codes "/"
      ++ fl.fixed 3 report.maximum_gb_per_second
      ++ codes " GB/s"
      ++ (if ltb 1 report.stream_count
          then codes ", aggregate of "
            ++ to_string report.stream_count
            ++ codes " synchronized streams"
          else [])
      ++ (if ltb 1 report.passes_per_sample
          then codes ", " ++ to_string report.passes_per_sample ++ codes " passes/sample"
          else [])
      ++ (if fl.less (fl.literal 0) report.median.bytes_per_cycle
          then codes ", " ++ fl.fixed 3 report.median.bytes_per_cycle ++ codes " B/cycle"
          else [])
      ++ (if fl.less (fl.literal 0) report.median.load_ipc
          then codes ", IPC " ++ fl.fixed 3 report.median.load_ipc
          else [])
      ++ codes "; "
      ++ report.cycle_source
      ++ codes "; "
      ++ report.workset_source

  unfoldable pub format_stream_workset : BandwidthReport F → Bytes
  format_stream_workset report =
      let per_stream = format_cache_capacity report.bytes in
      if report.stream_count == 1
      then per_stream
      else per_stream
        ++ codes "/stream ("
        ++ format_cache_capacity report.total_bytes
        ++ codes " total)"

  unfoldable pub bandwidth_cells : Bytes → Bytes → BandwidthReport F → List Bytes
  unfolding format_cache_measurement_details format_stream_workset
  bandwidth_cells item cores report =
      item
      ∷ cores
      ∷ report.kernel
      ∷ (fl.fixed 3 report.median.gb_per_second ++ codes " GB/s")
      ∷ format_stream_workset report
      ∷ format_cache_measurement_details report
      ∷ []

  unfoldable pub append_cache_bandwidth_row :
      Table → Bytes → List ℕ → BandwidthReport F → Option Table
  unfolding add_row cores_text bandwidth_cells
  append_cache_bandwidth_row table item cpus report = do
    cores ← cores_text report.stream_count cpus
    add_row table (bandwidth_cells item cores report)

  unfoldable pub describe_write_allocate : F → F → F → Bytes
  describe_write_allocate full_line_gbps partial_line_gbps nontemporal_gbps =
      let zero = fl.literal 0 in
      let ratio = fl.divide full_line_gbps partial_line_gbps in
      if not (fl.less zero full_line_gbps) || not (fl.less zero partial_line_gbps)
      then codes "not measured: a store stream failed"
      else (if at_most fl (fl.decimal 16 1) ratio
          then codes "full-line stores skip the line fill"
          else if at_most fl ratio (fl.decimal 125 2)
          then codes
              "full-line stores gain nothing over partial-line ones: the line is fetched before writing or the store path is the limit"
          else codes "inconclusive")
        ++ codes " (full-line stream "
        ++ fl.fixed 2 ratio
        ++ codes "x the partial-line stream, which must fetch every line)"
        ++ (if fl.less zero nontemporal_gbps
            then codes "; non-temporal stores "
              ++ fl.fixed 2 (fl.divide nontemporal_gbps full_line_gbps)
              ++ codes "x the full-line stream"
            else [])

  unfoldable pub write_allocate_cells : Bytes → ℕ → F → F → F → List Bytes
  unfolding describe_write_allocate
  write_allocate_cells cores bytes full part nontemporal =
      codes "Write allocate"
      ∷ cores
      ∷ codes "full-line vs partial-line store streams"
      ∷ codes "-"
      ∷ format_cache_capacity bytes
      ∷ describe_write_allocate full part nontemporal
      ∷ []

  module _ (measure : KernelSpec → Workset → ℕ → Outcome F) (cpus : List ℕ) where
    -- A row for what a measurement gives, and its rate, 0 where it failed.
    unfoldable pub append_outcome : Table → Bytes → Outcome F → Option (Table × F)
    unfolding append_cache_bandwidth_row append_failure_row
    append_outcome table item (measured report) = do
      next ← append_cache_bandwidth_row table item cpus report
      some (next, report.median.gb_per_second)
    append_outcome table item (failed error) = do
      next ← append_failure_row table item
      some (next, fl.literal 0)

    -- The body of the loop over the store streams.
    unfoldable pub append_store_row :
        Workset → Table → Bytes → Option KernelSpec → Option (Table × F)
    unfolding append_outcome memory_item
    append_store_row read table item none = some (table, fl.literal 0)
    append_store_row read table item (some kernel) =
        let bytes = read.bytes / kernel.bytes_per_block * kernel.bytes_per_block in
        let name = memory_item item (length cpus) in
        if bytes == 0
        then (do next ← append_failure_row table name; some (next, fl.literal 0))
        else append_outcome table name
            (measure kernel (record { bytes = bytes; source = read.source }) 1)

    -- The three kernels are those of full lines, of partial lines, and the non-temporal one.
    unfoldable pub append_memory_store_rows :
        Option KernelSpec → Option KernelSpec → Option KernelSpec → Table → Workset → Option Table
    unfolding append_store_row cores_text add_row write_allocate_cells
    append_memory_store_rows none partial_kernel nontemporal_kernel table read = some table
    append_memory_store_rows (some store) partial_kernel nontemporal_kernel table read = do
      (first, full) ← append_store_row read table (codes "sequential write bandwidth") (some store)
      (second, part) ←
          append_store_row read first (codes "partial-line write bandwidth") partial_kernel
      (third, nontemporal) ←
          append_store_row read second (codes "non-temporal write bandwidth") nontemporal_kernel
      cores ← cores_text (length cpus) cpus
      add_row third (write_allocate_cells cores read.bytes full part nontemporal)

    -- The row of the L3, where there is a workset for it.
    unfoldable pub append_l3_row : KernelSpec → Option Workset → Table → Option Table
    unfolding append_cache_bandwidth_row append_failure_row
    append_l3_row kernel none table = some table
    append_l3_row kernel (some workset) table = elim (measure kernel workset 8) [
      | failed error ↦ append_failure_row table (codes "L3 sequential read bandwidth")
      | measured report ↦
          append_cache_bandwidth_row table
            (if length cpus == 1
              then codes "L3 sequential read bandwidth"
              else codes "L3 aggregate sequential read bandwidth")
            cpus report
    ]

    unfoldable pub append_memory_rows :
        KernelSpec
        → Option KernelSpec
        → Option KernelSpec
        → Option KernelSpec
        → Option Workset
        → Table
        → Option Table
    unfolding append_failure_row append_cache_bandwidth_row append_memory_store_rows memory_item
    append_memory_rows kernel store partial_kernel nontemporal_kernel none table =
        append_failure_row table (codes "Memory sequential read bandwidth")
    append_memory_rows kernel store partial_kernel nontemporal_kernel (some workset) table =
        elim (measure kernel workset 1) [
          | failed error ↦ append_failure_row table (codes "Memory sequential read bandwidth")
          | measured report ↦ (do
            next ←
                append_cache_bandwidth_row table
                  (memory_item (codes "sequential read bandwidth") (length cpus)) cpus report
            append_memory_store_rows store partial_kernel nontemporal_kernel next workset)
        ]

    -- append_cache_memory_bandwidth, which always answers `true`; the worksets are what
    -- select_parallel_l3_workset and select_memory_workset choose.
    unfoldable pub append_cache_memory_bandwidth :
        KernelSpec
        → Option KernelSpec
        → Option KernelSpec
        → Option KernelSpec
        → Option Workset
        → Option Workset
        → Table
        → Option Table
    unfolding append_l3_row append_memory_rows
    append_cache_memory_bandwidth kernel store partial_kernel nontemporal_kernel l3 memory table =
        do
          next ← append_l3_row kernel l3 table
          append_memory_rows kernel store partial_kernel nontemporal_kernel memory next
