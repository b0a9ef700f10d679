-- ===== src/Cli/Parse.antt =====
-- common/cli.cpp: parse_cli_options. The argument vector is the list of its texts behind the name of
-- the program.
use cpufb.Base.{
  ℕ, ◌%◌, ◌^◌, List, [], ◌∷◌, none, some, Bool, true, false, not, ◌&&◌, Bytes, codes, ltb,
  if◌then◌else◌, max_u32,
}
use cpufb.Text.Bytes.{bytes_eq}
use cpufb.Text.StringSet.{insert}
use cpufb.ThreadPool.Parse.{parse_thread_pool}
use cpufb.Cli.Options.{
  CliOptions, BenchmarkFilter, SaveOptions, BenchMode, all, cache, compute, bad_thread_pool,
  bad_mode, too_many_repetitions, bad_format, unknown_option, Result, ok, err, ◌>>=◌,
}
use cpufb.Cli.Numbers.{parse_positive_integer, parse_uint32_option}
use cpufb.Cli.Arguments.{
  Argument, thread_pool, idle_time, loop_scale, bench_limit, mode, include_isa, exclude_isa,
  include_test, exclude_test, list_categories, list_instructions, sweep_instruction,
  scale_instruction, memory_bandwidth, memory_size_mib, memory_repetitions, save, output,
  save_format, output_format, unknown, classify, parse_filter_list, parse_save_format,
  validate_test_categories,
}

abbrev pub with_filter : CliOptions → (BenchmarkFilter → BenchmarkFilter) → CliOptions
with_filter o f = record o { filter = f o.filter }

abbrev pub with_save : CliOptions → (SaveOptions → SaveOptions) → CliOptions
with_save o f = record o { save = f o.save }

unfoldable pub set_mode : CliOptions → Bytes → Result CliOptions
set_mode o requested =
    let explicit = record o { mode_explicit = true } in
    if bytes_eq requested (codes "cache")
    then ok (record explicit { mode = cache })
    else if bytes_eq requested (codes "compute")
    then ok (record explicit { mode = compute })
    else if bytes_eq requested (codes "all")
    then ok (record explicit { mode = all })
    else err bad_mode

unfoldable pub set_format : CliOptions → Bytes → Result CliOptions
set_format o value = elim (parse_save_format value) [
  | none ↦ err (bad_format value)
  | some f ↦ ok (with_save o λ s. record s { format = f; format_set = true })
]

unfoldable pub set_thread_pool : CliOptions → Bytes → Result CliOptions
set_thread_pool o value = elim (parse_thread_pool value) [
  | none ↦ err bad_thread_pool
  | some cpus ↦ ok (record o { thread_pool = cpus; thread_pool_set = true })
]

unfoldable pub set_repetitions : CliOptions → ℕ → Result CliOptions
set_repetitions o parsed =
    if ltb max_u32 parsed
    then err too_many_repetitions
    else ok (record o { memory_repetitions = parsed % 2 ^ 32; memory_repetitions_set = true })

abbrev pub set_path : CliOptions → Bytes → CliOptions
set_path o path = with_save o λ s. record s { enabled = true; path = path }

-- The bodies of the loop.
unfoldable pub apply : CliOptions → Argument → Result CliOptions
unfolding set_mode set_format set_thread_pool set_repetitions
apply o (thread_pool v) = set_thread_pool o v
apply o (idle_time v) = do
  n ← parse_uint32_option v (codes "--idle_time")
  ok (record o { idle_time = n })
apply o (loop_scale v) = do
  n ← parse_uint32_option v (codes "--loop_scale")
  ok (record o { loop_scale = if ltb 0 n then n else 1 })
apply o (bench_limit v) = do
  n ← parse_uint32_option v (codes "--bench_limit")
  ok (record o { bench_limit = n })
apply o (mode v) = set_mode o v
apply o (include_isa v) =
    ok (with_filter o λ f. record f { include_isa = parse_filter_list v f.include_isa })
apply o (exclude_isa v) =
    ok (with_filter o λ f. record f { exclude_isa = parse_filter_list v f.exclude_isa })
apply o (include_test v) = ok (
    with_filter (record o { include_test_explicit = true })
      λ f. record f { include_test = parse_filter_list v f.include_test })
apply o (exclude_test v) =
    ok (with_filter o λ f. record f { exclude_test = parse_filter_list v f.exclude_test })
apply o list_categories = ok (record o { list_categories = true })
apply o list_instructions = ok (record o { list_instructions = true })
apply o (sweep_instruction v) = ok (record o { sweep_instruction = v })
apply o (scale_instruction v) = ok (record o { sweep_instruction = v })
apply o memory_bandwidth = ok (record o { memory_bandwidth = true })
apply o (memory_size_mib v) = do
  n ← parse_positive_integer v (codes "--memory-size-mib")
  ok (record o { memory_size_mib = n; memory_size_set = true })
apply o (memory_repetitions v) = do
  n ← parse_positive_integer v (codes "--memory-repetitions")
  set_repetitions o n
apply o (save v) = ok (set_path o v)
apply o (output v) = ok (set_path o v)
apply o (save_format v) = set_format o v
apply o (output_format v) = set_format o v
apply o (unknown arg) = err (unknown_option arg)

unfoldable pub parse_arguments : CliOptions → List Bytes → Result CliOptions
unfolding classify apply
parse_arguments o [] = ok o
parse_arguments o (arg ∷ args) = do next ← apply o (classify arg); parse_arguments next args

-- What a mode adds to the test filter, where none was given.
unfoldable pub mode_tests : BenchMode → List Bytes → List Bytes
mode_tests all tests = tests
mode_tests cache tests = insert (codes "cache") tests
mode_tests compute tests =
    insert (codes "multi_issue") (insert (codes "freq") (insert (codes "compute") tests))

unfoldable pub is_all : BenchMode → Bool
is_all all = true
is_all _ = false

-- What follows the loop.
unfoldable pub apply_mode : CliOptions → Result CliOptions
unfolding mode_tests is_all
apply_mode o =
    if o.mode_explicit && is_all o.mode
    then (do
      _ ← validate_test_categories o.filter.include_test
      ok (
          with_filter (record o { include_test_explicit = false })
            λ f. record f { include_test = [] }))
    else if not o.include_test_explicit && not (is_all o.mode)
    then ok (with_filter o λ f. record f { include_test = mode_tests o.mode f.include_test })
    else ok o

-- On the options that the front ends pass in, those of the constructor.
unfoldable pub parse_cli_options : List Bytes → CliOptions → Result CliOptions
unfolding parse_arguments apply_mode
parse_cli_options argv options = do parsed ← parse_arguments options argv; apply_mode parsed
