-- ===== src/Cli/Examples.antt =====
-- Runs of the catalog, the tables and the reports of common/cli.cpp on concrete data.
use cpufb.Base.{
  ltb, ◌/◌, ◌*◌, ◌≡◌, refl, ◌↔◌, ◌⊎◌, ℕ, zero, suc, ◌≤◌, ◌++◌, Option, ◌<◌, List, [], ◌∷◌, some,
  none, true, false, Bytes, codes, arith, All, ◌>>=◌, take, length,
}
use mathlib.Core.List.{cons-ne-nil}
use cpufb.Integers.{ℤ, pos}
use cpufb.Table.{Table, empty, set_column_num}
use cpufb.Table.Layout.{IsValid, set_column_num-IsValid}
use cpufb.Table.Printed.{Printed}
use cpufb.Table.Narrow.{Brief}
use cpufb.Table.Reader.{read_csv}
use cpufb.ThreadPool.Parse.{parse_thread_pool}
use cpufb.Text.Decimal.{to_string}
use cpufb.Cli.Sweep.{Floats, SweepSample, sweep_rows}
use cpufb.Cli.SweepRows.{AreRows, sweep_rows-AreRows}
use cpufb.Cli.Options.{BenchmarkInfo, SaveOptions, csv}
use cpufb.Cli.Catalog.{benchmark_info, pair_benchmark_latencies}
use cpufb.Cli.Paired.{IsPaired, pair_benchmark_latencies-IsPaired}
use cpufb.Cli.Prefix.{format_thread_pool_prefix, parse_thread_pool-format_thread_pool_prefix}
use cpufb.Cli.Report.{Section, saved, save_table_sections, print_benchmark_instructions}
use cpufb.Cli.Saved.{all_rows, read_csv-save_table_sections}
use cpufb.Cli.Listing.{candidates, print_benchmark_instructions-candidates}
use cpufb.Cli.System.{print_system_information, cells, print_system_information-cells}
use cpufb.Cli.Migration.{
  SystemInfoEntry, MigrationInfo, core_migration, has_entry, reported, entries_of,
  record_migration_information, record_migration_information_yes,
}

abbrev row : Bytes → Bytes → BenchmarkInfo
row isa instruction = record {
  isa = isa;
  instruction = instruction;
  metric = codes "FLOPS";
  is_latency = false;
  pair_index = none;
}

abbrev latency : BenchmarkInfo → BenchmarkInfo
latency item = record item { is_latency = true }

abbrev catalog : List BenchmarkInfo
catalog =
    row (codes "AVX2") (codes "FMA") ∷ latency (row (codes "avx2 ") (codes "FMA_latency")) ∷ []

abbrev paired_catalog : List BenchmarkInfo
paired_catalog =
    record (row (codes "AVX2") (codes "FMA")) { pair_index = some 1 }
    ∷ record (latency (row (codes "avx2 ") (codes "FMA_latency"))) { pair_index = some 0 }
    ∷ []

catalog-paired : pair_benchmark_latencies catalog ≡ paired_catalog
unfolding pair_benchmark_latencies cpufb.Cli.Catalog.is_compute cpufb.Text.Bytes.bytes_eq
    cpufb.Cli.Filter.get_benchmark_test_type cpufb.Cli.Filter.benchmark_kind_from_metric
    cpufb.Text.Bytes.contains cpufb.Cli.Catalog.is_latency_of cpufb.Text.Trim.normalize_filter_value
    cpufb.Text.Bytes.lowercase cpufb.Text.Trim.trim cpufb.Text.Trim.drop_end
    cpufb.Text.Trim.drop_blanks cpufb.Text.Trim.is_blank cpufb.Text.Bytes.to_lower
catalog-paired = refl

pair_benchmark_latencies-IsPaired_example : IsPaired (pair_benchmark_latencies catalog)
pair_benchmark_latencies-IsPaired_example = pair_benchmark_latencies-IsPaired catalog

abbrev threads : List ℕ
threads = 4 ∷ 0 ∷ 17 ∷ []

parse_thread_pool-format_thread_pool_prefix_example :
    (format_thread_pool_prefix threads 2 >>= parse_thread_pool) ≡ some (take 2 threads)
parse_thread_pool-format_thread_pool_prefix_example =
    parse_thread_pool-format_thread_pool_prefix threads 2
      (omega arith, (omega arith, (omega arith, tt))) (omega arith) (omega arith) (omega arith)

abbrev table : Table
table = record {
  col = 2;
  col_widths = pos 5 ∷ pos 5 ∷ [];
  contents = (codes "a,b" ∷ codes "\"" ∷ []) ∷ [];
}

abbrev sections : List Section
sections = (codes "load", table) ∷ []

abbrev options : SaveOptions
options = record { enabled = true; format_set = true; path = codes "out.csv"; format = csv }

read_csv-save_table_sections_example :
    (out : Bytes) × (save_table_sections true none options sections ≡ some (saved out))
    × (read_csv out ≡ some (all_rows sections))
read_csv-save_table_sections_example =
    read_csv-save_table_sections none options sections refl refl
      (record { name = cons-ne-nil _ _; cells = (omega arith, tt) }, tt)

catalog-Brief : All Brief (candidates catalog)
unfolding candidates cpufb.Cli.Filter.is_compute_instruction_candidate
    cpufb.Cli.Filter.get_benchmark_test_type cpufb.Cli.Filter.benchmark_kind_from_metric
    cpufb.Text.Bytes.contains cpufb.Text.Bytes.bytes_eq
catalog-Brief = omega arith

print_benchmark_instructions-candidates_example :
    (lines : List Bytes) × (widths : List ℤ) × (print_benchmark_instructions catalog ≡ some lines)
    × Printed 3 widths
        ((codes "Instruction Set" ∷ codes "Core Computation" ∷ codes "Metric" ∷ [])
          ∷ candidates catalog)
        lines
print_benchmark_instructions-candidates_example =
    print_benchmark_instructions-candidates catalog catalog-Brief

abbrev entries : List SystemInfoEntry
entries = record { item = core_migration; value = []; source = [] } ∷ []

abbrev info : MigrationInfo
info = record { available = true; observations = 3; migrations = 0; requested_cpu_mismatches = 1 }

entries-has_entry : has_entry entries ≡ true
unfolding has_entry cpufb.Text.Bytes.bytes_eq
entries-has_entry = refl

record_migration_information_yes_example :
    (reported (entries_of (record_migration_information (some entries) info).0)
      ≡ some (codes "yes"))
    ↔ ((info.available ≡ true)
        × (0 < info.observations)
        × ((0 < info.migrations) ⊎ (0 < info.requested_cpu_mismatches)))
record_migration_information_yes_example =
    record_migration_information_yes entries info entries-has_entry

-- Whole numbers in the place of `double`.
abbrev whole : Floats ℕ
whole = record {
  greater = λ a b. ltb b a;
  divide = λ a b. a / b;
  multiply = λ a b. a * b;
  literal = λ n. n;
  printed = λ digits n. to_string n;
  shown = to_string;
}

-- The sample of so many cores.
abbrev sample : ℕ → SweepSample ℕ
sample cores = record { performance = cores * 3000000000; ipc = 2; latency = [] }

abbrev measure : List ℕ → Option (SweepSample ℕ)
measure active = some (sample (length active))

measure-sample : (k : ℕ) → 0 < k → k ≤ length threads → measure (take k threads) ≡ some (sample k)
measure-sample zero p h = absurd (omega (arith, p))
measure-sample (suc zero) p h = refl
measure-sample (suc (suc zero)) p h = refl
measure-sample (suc (suc (suc zero))) p h = refl
measure-sample (suc (suc (suc (suc k)))) p h = absurd (omega (arith, h))

eight : (set_column_num empty 8).col ≡ 8
unfolding set_column_num
eight = refl

eight-IsValid : IsValid (set_column_num empty 8)
unfolding empty
eight-IsValid = set_column_num-IsValid empty 8 refl

sweep_rows-AreRows_example :
    (u : Table) × (rows : List (List Bytes)) × (sweep_rows whole measure threads
        (codes "FLOPS")
        0
        1
        3
        (set_column_num empty 8)
      ≡ some (some u))
    × (u.contents ≡ (set_column_num empty 8).contents ++ rows)
    × (length rows ≡ 3)
    × AreRows whole threads (codes "FLOPS") sample 1 rows
sweep_rows-AreRows_example =
    sweep_rows-AreRows whole threads (codes "FLOPS") sample measure measure-sample (omega arith)
      (omega arith) (set_column_num empty 8) eight-IsValid eight

entries-Brief : All Brief (cells entries)
unfolding cells
entries-Brief = omega arith

print_system_information-cells_example :
    (lines : List Bytes) × (widths : List ℤ) × (print_system_information (some entries)
      ≡ some (codes "System Information:" ∷ lines))
    × Printed 3 widths ((codes "Item" ∷ codes "Value" ∷ codes "Source" ∷ []) ∷ cells entries) lines
print_system_information-cells_example = print_system_information-cells entries entries-Brief
