-- ===== src/Cli/Tests.antt =====
-- Runs of the command line's definitions on concrete arguments.
use cpufb.Base.{
  ◌≡◌, ◌≢◌, refl, ◌↔◌, List, [], ◌∷◌, none, true, false, Bytes, codes, All, max_u32, ◌≤◌, not, ◌&&◌,
}
use cpufb.Text.Decimal.{value, IsDigit}
use cpufb.Text.Trim.{normalize_filter_value, normalize_filter_value_idem}
use cpufb.Text.StringSet.{member}
use cpufb.Cli.Options.{
  CliOptions, BenchmarkInfo, BenchmarkFilter, SaveOptions, txt, csv, default_options, Result, ok,
  err, unknown_option, cache, compute,
}
use cpufb.Cli.Numbers.{parse_uint32_option, parse_positive_integer, parse_uint32_option-value}
use cpufb.Cli.Arguments.{rules, test_categories}
use cpufb.Cli.Parse.{parse_cli_options}
use cpufb.Cli.Filter.{
  should_run_test, should_run_benchmark, get_benchmark_test_type, validate_benchmark_filter,
  validate_memory_bandwidth_options, finalize_save_options,
}
use cpufb.Cli.Valid.{IsValid, parse_cli_options-IsValid}
use cpufb.Cli.Modes.{in_mode, parse_cli_options-should_run_test}
use cpufb.Cli.Known.{is_option, parse_cli_options-is_option}
use cpufb.Cli.Checks.{has_isa, validate_benchmark_filter-ok}

abbrev argv : List Bytes
argv =
    codes "--thread_pool=[0,2-3]"
    ∷ codes "--mode=compute"
    ∷ codes "--exclude-test= Freq ,,"
    ∷ codes "--memory-size-mib=64"
    ∷ codes "--loop_scale=0"
    ∷ []

abbrev accepted : Result CliOptions → CliOptions
accepted (ok o) = o
accepted (err e) = default_options

abbrev misspelled : List Bytes
misspelled = codes "--include_test=cache" ∷ []

abbrev memory_argv : List Bytes
memory_argv = codes "--memory-bandwidth" ∷ codes "--mode=cache" ∷ []

-- What the arguments are read to.
abbrev parsed : CliOptions
parsed = record default_options {
  thread_pool = 0 ∷ 2 ∷ 3 ∷ [];
  thread_pool_set = true;
  mode = compute;
  mode_explicit = true;
  memory_size_mib = 64;
  memory_size_set = true;
  filter = record {
    include_isa = [];
    exclude_isa = [];
    include_test = codes "compute" ∷ codes "freq" ∷ codes "multi_issue" ∷ [];
    exclude_test = codes "freq" ∷ [];
  };
}

abbrev memory_options : CliOptions
memory_options = record default_options {
  memory_bandwidth = true;
  mode = cache;
  mode_explicit = true;
  filter = record {
    include_isa = [];
    exclude_isa = [];
    include_test = codes "cache" ∷ [];
    exclude_test = [];
  };
}

runs :
    (parse_cli_options argv default_options ≡ ok parsed)
    × (parse_cli_options memory_argv default_options ≡ ok memory_options)
    × (parse_cli_options misspelled default_options
        ≡ err (unknown_option (codes "--include_test=cache")))
unfolding parse_cli_options cpufb.Text.Bytes.strip_prefix cpufb.ThreadPool.Parse.parse_thread_pool
    cpufb.ThreadPool.Parse.read_entry cpufb.ThreadPool.Parse.read_id cpufb.ThreadPool.Parse.scan_id
    cpufb.ThreadPool.Parse.read_range cpufb.ThreadPool.Parse.after_entry
    cpufb.ThreadPool.Parse.cpus_from cpufb.Text.Bytes.bytes_eq parse_positive_integer
    cpufb.Text.Bytes.is_empty cpufb.Text.Strtoull.all_digits cpufb.Text.Strtoull.strtoull
    cpufb.Text.Strtoull.is_space cpufb.Text.Strtoull.with_sign cpufb.Text.Strtoull.span_digits value
    cpufb.Cli.Arguments.classify cpufb.Cli.Arguments.classify_by cpufb.Cli.Arguments.insert_items
    cpufb.Cli.Arguments.parse_filter_list cpufb.Cli.Arguments.parse_save_format
    cpufb.Cli.Arguments.pieces cpufb.Cli.Arguments.validate_test_categories parse_uint32_option
    cpufb.Cli.Options.default_filter default_options cpufb.Cli.Options.default_save
    cpufb.Cli.Parse.apply cpufb.Cli.Parse.apply_mode cpufb.Cli.Parse.is_all
    cpufb.Cli.Parse.mode_tests cpufb.Cli.Parse.parse_arguments cpufb.Cli.Parse.set_format
    cpufb.Cli.Parse.set_mode cpufb.Cli.Parse.set_repetitions cpufb.Cli.Parse.set_thread_pool
    cpufb.Text.Bytes.bytes_lt cpufb.Text.Bytes.lowercase cpufb.Text.Bytes.to_lower
    cpufb.Text.StringSet.insert member cpufb.Text.Strtoull.signed cpufb.Text.Strtoull.skip_spaces
    cpufb.Text.Trim.drop_blanks cpufb.Text.Trim.drop_end cpufb.Text.Trim.is_blank
    normalize_filter_value cpufb.Text.Trim.trim cpufb.ThreadPool.Parse.entries
    cpufb.ThreadPool.Parse.is_closing
runs = (refl, refl, refl)

parse_cli_options-IsValid_example : IsValid parsed
parse_cli_options-IsValid_example = parse_cli_options-IsValid argv parsed runs.0

parse_cli_options-should_run_test_example : should_run_test parsed.filter (codes "compute") ≡ (
    not (member (codes "compute") parsed.filter.exclude_test)
    && in_mode parsed.mode (codes "compute"))
unfolding default_options
parse_cli_options-should_run_test_example =
    parse_cli_options-should_run_test argv parsed runs.0 refl (codes "compute")

parse_cli_options-is_option_example : All (λ arg. is_option rules arg ≡ true) argv
parse_cli_options-is_option_example = parse_cli_options-is_option argv parsed runs.0

parse_uint32_option-value_example :
    (parse_uint32_option (codes "4294967295") (codes "--idle_time") ≡ ok 4294967295) ↔ (
      (codes "4294967295" ≢ [])
      × All IsDigit (codes "4294967295")
      × (value 0 (codes "4294967295") ≡ 4294967295)
      × (4294967295 ≤ max_u32))
parse_uint32_option-value_example =
    parse_uint32_option-value (codes "4294967295") (codes "--idle_time") 4294967295

abbrev catalog : List BenchmarkInfo
catalog =
    record {
      isa = codes "AVX2";
      instruction = codes "FMA";
      metric = codes "FLOPS";
      is_latency = false;
      pair_index = none;
    }
    ∷ []

abbrev avx2 : BenchmarkFilter
avx2 = record {
  include_isa = codes "avx2" ∷ [];
  exclude_isa = [];
  include_test = codes "compute" ∷ [];
  exclude_test = [];
}

avx2-accepted : validate_benchmark_filter avx2 catalog ≡ ok tt
unfolding validate_benchmark_filter cpufb.Cli.Filter.check_values cpufb.Cli.Filter.valid_isas
    get_benchmark_test_type cpufb.Cli.Filter.benchmark_kind_from_metric cpufb.Text.Bytes.contains
    cpufb.Text.Bytes.strip_prefix member cpufb.Text.StringSet.insert normalize_filter_value
    cpufb.Text.Bytes.bytes_eq cpufb.Text.Trim.trim cpufb.Text.Trim.drop_blanks
    cpufb.Text.Trim.drop_end cpufb.Text.Trim.is_blank cpufb.Text.Bytes.lowercase
    cpufb.Text.Bytes.to_lower
avx2-accepted = refl

validate_benchmark_filter-ok_example : (validate_benchmark_filter avx2 catalog ≡ ok tt) ↔ (
    All (λ value. member value test_categories ≡ true) avx2.include_test
    × All (λ value. member value test_categories ≡ true) avx2.exclude_test
    × All (λ isa. has_isa isa catalog ≡ true) avx2.include_isa
    × All (λ isa. has_isa isa catalog ≡ true) avx2.exclude_isa)
validate_benchmark_filter-ok_example = validate_benchmark_filter-ok avx2 catalog

abbrev saving : SaveOptions
saving = record { enabled = true; format_set = false; path = codes " out.CSV "; format = txt }

abbrev saved : SaveOptions
saved = record { enabled = true; format_set = false; path = codes "out.CSV"; format = csv }

saving-saved : finalize_save_options saving ≡ ok saved
unfolding finalize_save_options cpufb.Cli.Filter.infer_save_format_from_path
    cpufb.Cli.Filter.ends_with_case_insensitive normalize_filter_value cpufb.Text.Bytes.bytes_eq
    cpufb.Text.Trim.trim cpufb.Text.Trim.drop_blanks cpufb.Text.Trim.drop_end
    cpufb.Text.Trim.is_blank cpufb.Text.Bytes.lowercase cpufb.Text.Bytes.to_lower
    cpufb.Text.Bytes.is_empty
saving-saved = refl
