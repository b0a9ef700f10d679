-- ===== src/Cli/Filter.antt =====
-- common/cli.cpp: which tests and benchmarks a filter lets through, and which filters are refused.
use cpufb.Base.{
  List, [], ◌∷◌, Bool, true, false, not, ◌&&◌, ◌||◌, Bytes, codes, if◌then◌else◌, ltb, length, drop,
  ◌-◌,
}
use cpufb.Text.Bytes.{bytes_eq, contains, is_empty}
use cpufb.Text.Trim.{normalize_filter_value, trim}
use cpufb.Text.StringSet.{insert, member, no_elements}
use cpufb.Cli.Options.{
  BenchmarkInfo, BenchmarkFilter, SaveOptions, SaveFormat, txt, csv, CliOptions, Error,
  unknown_category, unavailable_isa, memory_options_alone, memory_unsupported, memory_with_sweep,
  memory_with_filters, empty_path, Result, ok, err, ◌>>=◌,
}
use cpufb.Cli.Arguments.{test_categories}
use cpufb.Cli.Parse.{is_all}

unfoldable pub filter_allows_value : List Bytes → List Bytes → Bytes → Bool
unfolding no_elements
filter_allows_value include exclude value =
    if member value exclude then false else no_elements include || member value include

-- BenchmarkKind.
pub data BenchmarkKind : Type 0 where
  compute load multi_issue : BenchmarkKind

unfoldable pub benchmark_kind_from_metric : Bytes → BenchmarkKind
benchmark_kind_from_metric metric =
    if contains (codes "Byte/") metric
    then load
    else if contains (codes "IPC") metric
    then multi_issue
    else compute

abbrev pub test_type : BenchmarkKind → Bytes
test_type load = codes "load"
test_type multi_issue = codes "multi_issue"
test_type compute = codes "compute"

unfoldable pub get_benchmark_test_type : Bytes → Bytes
get_benchmark_test_type metric = test_type (benchmark_kind_from_metric metric)

unfoldable pub should_run_test : BenchmarkFilter → Bytes → Bool
should_run_test filter test_type =
    filter_allows_value filter.include_test filter.exclude_test test_type

unfoldable pub should_run_benchmark : BenchmarkFilter → Bytes → Bytes → Bool
should_run_benchmark filter isa metric =
    let test_type = get_benchmark_test_type metric in
    if not (should_run_test filter test_type)
    then false
    else if bytes_eq test_type (codes "compute")
    then filter_allows_value filter.include_isa filter.exclude_isa (normalize_filter_value isa)
    else true

unfoldable pub benchmark_needs_freq : BenchmarkFilter → Bool
benchmark_needs_freq filter =
    should_run_test filter (codes "compute")
    || should_run_test filter (codes "load")
    || should_run_test filter (codes "cache")
    || should_run_test filter (codes "multi_issue")
    || should_run_test filter (codes "freq")

has_one : List Bytes → Bool
has_one (x ∷ []) = true
has_one _ = false

unfoldable pub should_run_standalone_warmup : BenchmarkFilter → Bool
unfolding has_one
should_run_standalone_warmup filter =
    has_one filter.include_test || not (no_elements filter.include_isa)

unfoldable pub is_latency_benchmark : Bytes → Bool
is_latency_benchmark instruction = contains (codes "_latency") instruction

unfoldable pub is_compute_instruction_candidate : BenchmarkInfo → Bool
is_compute_instruction_candidate item =
    bytes_eq (get_benchmark_test_type item.metric) (codes "compute") && not item.is_latency

-- The normalized ISA names of the compute benchmarks.
unfoldable pub valid_isas : List BenchmarkInfo → List Bytes → List Bytes
valid_isas [] isas = isas
valid_isas (item ∷ items) isas = valid_isas items (
    if bytes_eq (get_benchmark_test_type item.metric) (codes "compute")
    then insert (normalize_filter_value item.isa) isas
    else isas)

-- Each value of a set must be in another; the first one that is not ends the check.
unfoldable pub check_values : List Bytes → (Bytes → Error) → List Bytes → Result (Unit {0})
check_values valid message [] = ok tt
check_values valid message (value ∷ values) =
    let rest = check_values valid message values in
    if member value valid then rest else err (message value)

unfoldable pub validate_benchmark_filter : BenchmarkFilter → List BenchmarkInfo → Result (Unit {0})
unfolding check_values
validate_benchmark_filter filter catalog = do
  let isas = valid_isas catalog []
  _ ← check_values test_categories unknown_category filter.include_test
  _ ← check_values test_categories unknown_category filter.exclude_test
  _ ← check_values isas unavailable_isa filter.include_isa
  check_values isas unavailable_isa filter.exclude_isa

unfoldable pub validate_memory_bandwidth_options : CliOptions → Bool → Result (Unit {0})
validate_memory_bandwidth_options o architecture_supported =
    let cache_included =
      member (codes "cache") o.filter.include_test || o.mode_explicit && is_all o.mode in
    let explicit_cache_test =
      cache_included && not (member (codes "cache") o.filter.exclude_test) in
    if not o.memory_bandwidth
    then if (o.memory_size_set || o.memory_repetitions_set) && not explicit_cache_test
      then err memory_options_alone
      else ok tt
    else if not architecture_supported
    then err memory_unsupported
    else if not (is_empty o.sweep_instruction)
    then err memory_with_sweep
    else if not (no_elements o.filter.include_isa)
        || not (no_elements o.filter.exclude_isa)
        || o.include_test_explicit && not (no_elements o.filter.include_test)
        || not (no_elements o.filter.exclude_test)
    then err memory_with_filters
    else ok tt

-- The last bytes of a text, as many as another text has.
unfoldable pub ends_with_case_insensitive : Bytes → Bytes → Bool
ends_with_case_insensitive value suffix =
    if ltb (length value) (length suffix)
    then false
    else bytes_eq (normalize_filter_value (drop (length value - length suffix) value))
        (normalize_filter_value suffix)

unfoldable pub infer_save_format_from_path : Bytes → SaveFormat
infer_save_format_from_path path =
    if ends_with_case_insensitive path (codes ".csv") then csv else txt

unfoldable pub finalize_save_options : SaveOptions → Result SaveOptions
finalize_save_options o =
    let path = trim o.path in
    if not o.enabled
    then ok o
    else if is_empty path
    then err empty_path
    else if not o.format_set
    then ok (record o { path = path; format = infer_save_format_from_path path })
    else ok (record o { path = path })
