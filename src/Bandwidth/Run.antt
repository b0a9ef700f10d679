-- ===== src/Bandwidth/Run.antt =====
-- common/cache/memory_bandwidth.cpp: run_memory_bandwidth.
use cpufb.Base.{
  ℕ, List, [], ◌∷◌, ◌++◌, Option, none, some, Bool, Bytes, codes, ◌==◌, if◌then◌else◌, ◌>>=◌,
  get_elem?,
}
use cpufb.Text.Decimal.{to_string}
use cpufb.Table.{Table, empty, set_column_num, add_one_item, print}
use cpufb.Cli.Options.{CliOptions}
use cpufb.Cli.Report.{Saved, save_table_sections}
use cpufb.Doubles.{Doubles}
use cpufb.Bandwidth.Workset.{Workset}
use cpufb.Bandwidth.Streams.{KernelSpec, BandwidthReport, Outcome, measured, failed}
use cpufb.Bandwidth.Rows.{format_stream_workset}

-- How a run ends: `false` without a report, or what it printed and what it saved.
pub data Ran : Type 0 where
  gave_up : Ran
  printed : List Bytes → Saved → Ran

abbrev pub heading : ℕ → ℕ → Bytes
heading streams repetitions =
    if streams == 1
    then codes "Single-core memory bandwidth: one sequential read stream, "
      ++ to_string repetitions
      ++ codes " sample(s)"
    else codes "Multi-core memory bandwidth: "
      ++ to_string streams
      ++ codes " synchronized read streams, "
      ++ to_string repetitions
      ++ codes " sample(s)"

abbrev pub titles : List Bytes
titles =
    codes "Core ID"
    ∷ codes "Workset"
    ∷ codes "Kernel"
    ∷ codes "Median GB/s"
    ∷ codes "B/cycle"
    ∷ codes "Load IPC"
    ∷ codes "Min GB/s"
    ∷ codes "Max GB/s"
    ∷ codes "Cycle Source"
    ∷ codes "Workset Source"
    ∷ []

module _ {ℓ} {F : Type ℓ} (fl : Doubles F) where
  unfoldable pub result_cells : ℕ → BandwidthReport F → List Bytes
  unfolding format_stream_workset
  result_cells cpu report =
      let zero = fl.literal 0 in
      (if report.stream_count == 1
        then to_string cpu
        else to_string report.stream_count ++ codes " streams")
      ∷ format_stream_workset fl report
      ∷ report.kernel
      ∷ fl.fixed 3 report.median.gb_per_second
      ∷ (if fl.less zero report.median.bytes_per_cycle
          then fl.fixed 3 report.median.bytes_per_cycle
          else codes "-")
      ∷ (if fl.less zero report.median.load_ipc
          then fl.fixed 3 report.median.load_ipc
          else codes "-")
      ∷ fl.fixed 3 report.minimum_gb_per_second
      ∷ fl.fixed 3 report.maximum_gb_per_second
      ∷ report.cycle_source
      ∷ report.workset_source
      ∷ []

  -- Behind the measurement.
  unfoldable pub report_run : Bool → Option Table → CliOptions → ℕ → Outcome F → Option Ran
  unfolding result_cells
  report_run opens system options cpu (failed error) = some gave_up
  report_run opens system options cpu (measured report) = do
    head ← add_one_item (set_column_num empty 10) titles
    table ← add_one_item head (result_cells cpu report)
    lines ← print table
    file ← save_table_sections opens system options.save ((codes "memory_bandwidth", table) ∷ [])
    some (printed (heading report.stream_count options.memory_repetitions ∷ lines) file)

  -- The workset is what select_memory_workset chooses; a run without CPUs reads out of bounds.
  unfoldable pub run_memory_bandwidth :
      (KernelSpec → Workset → ℕ → Outcome F)
      → Bool
      → Option Table
      → CliOptions
      → KernelSpec
      → Option Workset
      → Option Ran
  unfolding report_run
  run_memory_bandwidth measure opens system options kernel memory = do
    cpu ← get_elem? options.thread_pool 0
    elim memory as (λ _. Option Ran) [
      | none ↦ some gave_up
      | some workset ↦ report_run opens system options cpu (measure kernel workset 1)
    ]
