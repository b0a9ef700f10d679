-- ===== src/Cli/Sweep.antt =====
-- common/cli.cpp: run_instruction_sweep. The operations on `double`, and the two callbacks, are
-- arguments. Each call of a callback has arguments of its own, so that a function stands for any
-- callback, whatever its context keeps. A `prepare` that is
-- not given is one that answers `true`, and a `measure` that is not given is one that fails.
use cpufb.Base.{
  ℕ, suc, zero, List, [], ◌∷◌, ◌++◌, Option, none, some, Bool, true, false, ◌&&◌, ◌>>=◌, Bytes,
  codes, if◌then◌else◌, length, get_elem?, take, ◌==◌,
}
use cpufb.Table.{Table, empty, set_column_num, add_one_item, print}
use cpufb.Text.Bytes.{is_empty}
use cpufb.Text.Decimal.{to_string}
use cpufb.Cli.Options.{BenchmarkInfo, SaveOptions}
use cpufb.Cli.Catalog.{find_compute_instruction_matches, find_latency_pair_index}
use cpufb.Cli.Prefix.{format_thread_pool_prefix}
use cpufb.Cli.Report.{Section, Saved, save_table_sections}

-- `double`: the order, the quotient and the product, a literal, what a stream prints at a precision,
-- and `std::to_string`.
pub record Floats {ℓ} (F : Type ℓ) : Type ℓ where
  pub greater : F → F → Bool
  pub divide : F → F → F
  pub multiply : F → F → F
  pub literal : ℕ → F
  pub printed : ℕ → F → Bytes
  pub shown : F → Bytes

pub record SweepSample {ℓ} (F : Type ℓ) : Type ℓ where
  pub performance : F
  pub ipc : F
  pub latency : Bytes

pub record SweepConfig : Type 0 where
  pub ipc_column : Bytes
  pub latency_column : Bytes
  pub print_banner : Bool
  pub include_metadata : Bool

-- How a sweep ends, with what it printed.
pub data Swept : Type 0 where
  no_instructions no_match prepare_failed measurement_failed : Swept
  ambiguous : List ℕ → Swept
  swept : List Bytes → Saved → Swept

module _ {ℓ} {F : Type ℓ} (fl : Floats F) where
  unfoldable pub format_perf_value : F → Bytes → Bytes
  format_perf_value perf metric =
      let tera = fl.greater perf (fl.literal 1000000000000) in
      let scaled = fl.divide perf (fl.literal (if tera then 1000000000000 else 1000000000)) in
      fl.printed 5 scaled ++ codes " " ++ (if tera then codes "T" else codes "G") ++ metric

  unfoldable pub format_ratio_value : F → Bytes
  format_ratio_value value = fl.printed 4 value ++ codes "x"

  unfoldable pub format_percent_value : F → Bytes
  format_percent_value value = fl.printed 4 (fl.multiply value (fl.literal 100)) ++ codes "%"

  -- A row of the table behind its thread pool.
  unfoldable pub sweep_row : F → Bytes → SweepSample F → ℕ → Bytes → List Bytes
  unfolding format_perf_value format_ratio_value format_percent_value
  sweep_row baseline metric sample cores pool =
      let speedup =
        if fl.greater baseline (fl.literal 0)
        then fl.divide sample.performance baseline
        else fl.literal 0 in
      let efficiency = fl.divide speedup (fl.literal cores) in
      to_string cores
      ∷ pool
      ∷ format_perf_value sample.performance metric
      ∷ format_perf_value (fl.divide sample.performance (fl.literal cores)) metric
      ∷ format_ratio_value speedup
      ∷ format_percent_value efficiency
      ∷ (if fl.greater sample.ipc (fl.literal 0) then fl.shown sample.ipc else codes "-")
      ∷ (if is_empty sample.latency then codes "-" else sample.latency)
      ∷ []

  module _ (measure : List ℕ → Option (SweepSample F)) (threads : List ℕ) (metric : Bytes) where
    -- The loop over the numbers of cores, `rounds` of them from `cores` on. The inner `none` is a
    -- measurement that failed, the outer one a read out of bounds.
    unfoldable pub sweep_rows : F → ℕ → ℕ → Table → Option (Option Table)
    unfolding sweep_row
    sweep_rows baseline cores zero table = some (some table)
    sweep_rows baseline cores (suc rounds) table = elim (measure (take cores threads)) [
      | none ↦ some none
      | some sample ↦
          let first = if cores == 1 then sample.performance else baseline in
          (do
            pool ← format_thread_pool_prefix threads cores
            next ← add_one_item table (sweep_row first metric sample cores pool)
            sweep_rows first (suc cores) rounds next)
    ]

abbrev pub titles : SweepConfig → List Bytes
titles config =
    codes "Cores"
    ∷ codes "Thread Pool"
    ∷ codes "Peak Performance"
    ∷ codes "Peak/Core"
    ∷ codes "Speedup"
    ∷ codes "Efficiency"
    ∷ config.ipc_column
    ∷ config.latency_column
    ∷ []

unfoldable pub metadata : List ℕ → BenchmarkInfo → Option Table
metadata threads selected = do
  a ← add_one_item (set_column_num empty 2) (codes "Item" ∷ codes "Value" ∷ [])
  b ← add_one_item a (codes "Instruction Set" ∷ selected.isa ∷ [])
  c ← add_one_item b (codes "Core Computation" ∷ selected.instruction ∷ [])
  d ← add_one_item c (codes "Metric" ∷ selected.metric ∷ [])
  pool ← format_thread_pool_prefix threads (length threads)
  add_one_item d (codes "Thread Pool" ∷ pool ∷ [])

abbrev pub with_metadata : Bool → List ℕ → BenchmarkInfo → Section → Option (List Section)
with_metadata false threads selected section = some (section ∷ [])
with_metadata true threads selected section = do
  table ← metadata threads selected
  some ((codes "sweep_metadata", table) ∷ section ∷ [])

-- The lines of the banner; a CPU is printed behind a blank.
abbrev pub cpu_texts : List ℕ → Bytes
cpu_texts [] = []
cpu_texts (cpu ∷ cpus) = codes " " ++ to_string cpu ++ cpu_texts cpus

abbrev pub banner : SweepConfig → List ℕ → BenchmarkInfo → List Bytes
banner config threads selected =
    if config.print_banner
    then (codes "Instruction Sweep: " ++ selected.isa ++ codes " / " ++ selected.instruction)
      ∷ (codes "Thread Pool Binding:" ++ cpu_texts threads)
      ∷ []
    else []

-- What follows the loop.
unfoldable pub report :
    Bool
    → Option Table
    → SaveOptions
    → SweepConfig
    → List ℕ
    → BenchmarkInfo
    → Option Table
    → Option Swept
unfolding metadata
report opens system o config threads selected none = some measurement_failed
report opens system o config threads selected (some table) = do
  lines ← print table
  sections ←
      with_metadata (config.include_metadata && o.enabled) threads selected
        (codes "instruction_sweep", table)
  file ← save_table_sections opens system o sections
  some (swept (banner config threads selected ++ lines) file)

module _ {ℓ} {F : Type ℓ} (fl : Floats F) (prepare : List ℕ → ℕ → Bool)
    (measure : List ℕ → ℕ → ℕ → Option ℕ → Option (SweepSample F)) (threads : List ℕ)
    (idle_time : ℕ) where
  -- The sweep of one instruction.
  unfoldable pub sweep_one :
      Bool → Option Table → List BenchmarkInfo → SaveOptions → SweepConfig → ℕ → Option Swept
  unfolding sweep_rows report
  sweep_one opens system catalog o config index = do
    selected ← get_elem? catalog index
    let latency_index = find_latency_pair_index catalog index
    head ← add_one_item (set_column_num empty 8) (titles config)
    let rest = (do
      table ←
          sweep_rows fl (λ active. measure active idle_time index latency_index) threads
            selected.metric (fl.literal 0) 1 (length threads) head
      report opens system o config threads selected table)
    if prepare threads index then rest else some prepare_failed

  unfoldable pub run_instruction_sweep :
      Bool → Option Table → Bytes → List BenchmarkInfo → SaveOptions → SweepConfig → Option Swept
  unfolding sweep_one
  run_instruction_sweep opens system instruction [] o config = some no_instructions
  run_instruction_sweep opens system instruction (item ∷ items) o config =
      elim (find_compute_instruction_matches instruction (item ∷ items)) [
        | [] ↦ some no_match
        | index ∷ [] ↦ sweep_one opens system (item ∷ items) o config index
        | index ∷ other ∷ more ↦ some (ambiguous (index ∷ other ∷ more))
      ]
