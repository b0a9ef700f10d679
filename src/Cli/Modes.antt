-- ===== src/Cli/Modes.antt =====
-- common/cli.cpp: the tests that a mode selects.
use cpufb.Base.{
  ◌≡◌, refl, List, [], ◌∷◌, Bool, true, false, arith, not, ◌&&◌, ◌||◌, Bytes, codes, if◌then◌else◌,
  Option-cases, inl, inr,
}
use cpufb.Text.Bytes.{bytes_eq, bytes_lt}
use cpufb.Text.StringSet.{insert, member, no_elements}
use cpufb.ThreadPool.Parse.{parse_thread_pool}
use cpufb.Cli.Options.{
  CliOptions, BenchMode, all, cache, compute, default_options, ok, Holds, Holds->>=, Holds-ok,
}
use cpufb.Cli.Arguments.{Argument, classify}
use cpufb.Cli.Parse.{
  apply, set_mode, set_format, set_thread_pool, set_repetitions, apply_mode, parse_arguments,
  parse_cli_options, mode_tests, is_all,
}
use cpufb.Cli.Filter.{should_run_test, filter_allows_value}

-- The tests of a mode.
unfoldable pub in_mode : BenchMode → Bytes → Bool
in_mode all test = true
in_mode cache test = bytes_eq test (codes "cache")
in_mode compute test =
    bytes_eq test (codes "compute")
    || (bytes_eq test (codes "freq") || bytes_eq test (codes "multi_issue"))

-- Without `--include-test` nothing is in its set.
Untouched : CliOptions → Type 0
Untouched o = if o.include_test_explicit then Unit else o.filter.include_test ≡ []

apply-Untouched : (o : CliOptions) (a : Argument) → Untouched o → Holds Untouched (apply o a)
unfolding apply Untouched
apply-Untouched o (Argument.thread_pool s) v = elim (Option-cases (parse_thread_pool s)) [
  | inl e ↦ rw (Holds, set_thread_pool, e) tt
  | inr (cpus, e) ↦ rw (Holds, set_thread_pool, e) v
]
apply-Untouched o (Argument.idle_time s) v = ground arith
apply-Untouched o (Argument.loop_scale s) v = ground arith
apply-Untouched o (Argument.bench_limit s) v = ground arith
apply-Untouched o (Argument.mode s) v = unfold set_mode in ground arith
apply-Untouched o (Argument.include_isa s) v = v
apply-Untouched o (Argument.exclude_isa s) v = v
apply-Untouched o (Argument.include_test s) v = tt
apply-Untouched o (Argument.exclude_test s) v = v
apply-Untouched o Argument.list_categories v = v
apply-Untouched o Argument.list_instructions v = v
apply-Untouched o (Argument.sweep_instruction s) v = v
apply-Untouched o (Argument.scale_instruction s) v = v
apply-Untouched o Argument.memory_bandwidth v = v
apply-Untouched o (Argument.memory_size_mib s) v = ground arith
apply-Untouched o (Argument.memory_repetitions s) v = unfold set_repetitions in ground arith
apply-Untouched o (Argument.save s) v = v
apply-Untouched o (Argument.output s) v = v
apply-Untouched o (Argument.save_format s) v = unfold set_format in ground arith
apply-Untouched o (Argument.output_format s) v = unfold set_format in ground arith
apply-Untouched o (Argument.unknown s) v = tt

default-Untouched : Untouched default_options
unfolding default_options Untouched
default-Untouched = refl

parse_arguments-Untouched :
    (o : CliOptions) (args : List Bytes) → Untouched o → Holds Untouched (parse_arguments o args)
unfolding parse_arguments
parse_arguments-Untouched o [] v = v
parse_arguments-Untouched o (arg ∷ args) v =
    Holds->>= Untouched Untouched (apply o (classify arg)) _ (apply-Untouched o (classify arg) v)
      (λ next n. parse_arguments-Untouched next args n)

-- Without `--include-test` the filter includes the tests of the mode.
Selects : Bytes → CliOptions → Type 0
Selects test o =
    if o.include_test_explicit
    then Unit
    else (no_elements o.filter.include_test || member test o.filter.include_test)
      ≡ in_mode o.mode test

mode_tests-Selects :
    (m : BenchMode) (test : Bytes)
    → (no_elements (mode_tests m []) || member test (mode_tests m [])) ≡ in_mode m test
unfolding mode_tests in_mode member insert no_elements bytes_eq bytes_lt
mode_tests-Selects all test = refl
mode_tests-Selects cache test = ground arith
mode_tests-Selects compute test = ground arith

is_all→ : (m : BenchMode) → is_all m ≡ true → m ≡ all
unfolding is_all
is_all→ all h = refl
is_all→ cache h = cc
is_all→ compute h = cc

all-in_mode : (test : Bytes) → in_mode all test ≡ true
unfolding in_mode
all-in_mode test = refl

apply_mode-Selects :
    (o : CliOptions) (test : Bytes) → Untouched o → Holds (Selects test) (apply_mode o)
unfolding apply_mode Untouched Selects no_elements
apply_mode-Selects o test v = ground (arith, is_all→ o.mode, mode_tests-Selects o.mode test)

-- Without `--include-test`, exactly the tests of the mode run, less the ones that are excluded.
pub parse_cli_options-should_run_test :
    (argv : List Bytes) (o : CliOptions)
    → parse_cli_options argv default_options ≡ ok o
    → o.include_test_explicit ≡ false
    → (test : Bytes)
    → should_run_test o.filter test
      ≡ (not (member test o.filter.exclude_test) && in_mode o.mode test)
unfolding parse_cli_options should_run_test filter_allows_value Selects
parse_cli_options-should_run_test argv o h implicit test =
    let selects : Selects test o = Holds-ok (Selects test) h (
      Holds->>= Untouched (Selects test) (parse_arguments default_options argv) apply_mode
        (parse_arguments-Untouched default_options argv default-Untouched)
        (λ o. apply_mode-Selects o test)) in
    ground (arith, selects)
