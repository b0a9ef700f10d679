-- ===== src/Cli/Valid.antt =====
-- common/cli.cpp: what holds of the options that parse_cli_options returns.
use cpufb.Base.{
  ℕ, ◌≤◌, ◌<◌, ◌≡◌, refl, List, [], ◌∷◌, false, arith, Bytes, if◌then◌else◌, max_u32, max_u64,
  max_int, length, All, Option-cases, inl, inr,
}
use cpufb.Text.Trim.{normalize_filter_value}
use cpufb.Text.StringSet.{IsAscending, insert-IsAscending}
use cpufb.ThreadPool.Parse.{parse_thread_pool}
use cpufb.ThreadPool.Lists.{parse_thread_pool_lists}
use cpufb.Cli.Options.{
  CliOptions, BenchmarkFilter, BenchMode, all, cache, compute, default_options, Result, ok, ◌>>=◌,
  Holds, Holds->>=, Result-Holds, Holds-ok,
}
use cpufb.Cli.Numbers.{parse_positive_integer, parse_uint32_option, uint32_sound, positive_sound}
use cpufb.Cli.Arguments.{
  Argument, classify, pieces, insert_items, parse_filter_list, parse_save_format,
}
use cpufb.Cli.Parse.{
  apply, set_mode, set_format, set_thread_pool, set_repetitions, apply_mode, parse_arguments,
  parse_cli_options, mode_tests,
}

insert_items-IsAscending :
    (items target : List Bytes) → IsAscending target → IsAscending (insert_items items target)
unfolding insert_items
insert_items-IsAscending [] target h = h
insert_items-IsAscending (item ∷ items) target h =
    insert_items-IsAscending items _
      (ground (arith, insert-IsAscending (normalize_filter_value item) target h))

parse_filter_list-IsAscending :
    (value : Bytes) (target : List Bytes)
    → IsAscending target
    → IsAscending (parse_filter_list value target)
unfolding parse_filter_list
parse_filter_list-IsAscending value target h =
    insert_items-IsAscending (pieces false [] value) target h

pub record FilterIsValid (f : BenchmarkFilter) : Type 0 where
  pub include_isa : IsAscending f.include_isa
  pub exclude_isa : IsAscending f.exclude_isa
  pub include_test : IsAscending f.include_test
  pub exclude_test : IsAscending f.exclude_test

-- The numbers are in the range of their types and usable, a pool that was given is not empty and
-- holds values of `int`, and a mode other than `all` was asked for.
pub record IsValid (o : CliOptions) : Type 0 where
  pub idle_time : o.idle_time ≤ max_u32
  pub loop_scale : (0 < o.loop_scale) × (o.loop_scale ≤ max_u32)
  pub bench_limit : o.bench_limit ≤ max_u32
  pub memory_repetitions : (0 < o.memory_repetitions) × (o.memory_repetitions ≤ max_u32)
  pub memory_size :
      if o.memory_size_set
      then (0 < o.memory_size_mib) × (o.memory_size_mib ≤ max_u64)
      else o.memory_size_mib ≡ 0
  pub thread_pool :
      if o.thread_pool_set
      then (0 < length o.thread_pool)
        × (length o.thread_pool ≤ 65536)
        × All (λ cpu. cpu ≤ max_int) o.thread_pool
      else o.thread_pool ≡ []
  pub filter : FilterIsValid o.filter
  pub mode : if o.mode_explicit then Unit else o.mode ≡ all

default-IsValid : IsValid default_options
unfolding default_options
default-IsValid = record {
  idle_time = omega arith;
  loop_scale = omega arith;
  bench_limit = omega arith;
  memory_repetitions = omega arith;
  memory_size = refl;
  thread_pool = refl;
  filter = record { include_isa = tt; exclude_isa = tt; include_test = tt; exclude_test = tt };
  mode = refl;
}

uint32-Holds : (s option : Bytes) → Holds (λ n. n ≤ max_u32) (parse_uint32_option s option)
uint32-Holds s option =
    Result-Holds (parse_uint32_option s option) (λ n h. (uint32_sound s option n h).3)

positive-Holds :
    (s option : Bytes) → Holds (λ n. (0 < n) × (n ≤ max_u64)) (parse_positive_integer s option)
positive-Holds s option =
    Result-Holds (parse_positive_integer s option)
      (λ n h. let r = positive_sound s option n h in (r.3, r.4))

module _ (o : CliOptions) (v : IsValid o) where
  set_thread_pool-IsValid : (s : Bytes) → Holds IsValid (set_thread_pool o s)
  unfolding set_thread_pool
  set_thread_pool-IsValid s = elim (Option-cases (parse_thread_pool s)) [
    | inl e ↦ rw (Holds, e) tt
    | inr (cpus, e) ↦ rw (Holds, e) (ground (arith, parse_thread_pool_lists s cpus e))
  ]

  set_mode-IsValid : (s : Bytes) → Holds IsValid (set_mode o s)
  unfolding set_mode
  set_mode-IsValid s = ground arith

  set_format-IsValid : (s : Bytes) → Holds IsValid (set_format o s)
  unfolding set_format
  set_format-IsValid s = elim (Option-cases (parse_save_format s)) [
    | inl e ↦ rw (Holds, e) tt
    | inr (f, e) ↦ rw (Holds, e) (ground arith)
  ]

  set_repetitions-IsValid : (n : ℕ) → 0 < n → Holds IsValid (set_repetitions o n)
  unfolding set_repetitions
  set_repetitions-IsValid n h = ground arith

  set_number :
      (P : ℕ → Type 0) (m : Result ℕ) (f : ℕ → CliOptions)
      → Holds P m
      → ((n : ℕ) → P n → IsValid (f n))
      → Holds IsValid (m >>= λ n. ok (f n))
  set_number P m f h g = Holds->>= P IsValid m (λ n. ok (f n)) h g

-- Every body of the loop keeps the options valid.
apply-IsValid : (o : CliOptions) (a : Argument) → IsValid o → Holds IsValid (apply o a)
unfolding apply
apply-IsValid o (Argument.thread_pool s) v = set_thread_pool-IsValid o v s
apply-IsValid o (Argument.idle_time s) v =
    set_number o v _ (parse_uint32_option s _) _ (uint32-Holds s _) (λ n h. ground arith)
apply-IsValid o (Argument.loop_scale s) v =
    set_number o v _ (parse_uint32_option s _) _ (uint32-Holds s _) (λ n h. ground arith)
apply-IsValid o (Argument.bench_limit s) v =
    set_number o v _ (parse_uint32_option s _) _ (uint32-Holds s _) (λ n h. ground arith)
apply-IsValid o (Argument.mode s) v = set_mode-IsValid o v s
apply-IsValid o (Argument.include_isa s) v =
    ground (arith, parse_filter_list-IsAscending s o.filter.include_isa)
apply-IsValid o (Argument.exclude_isa s) v =
    ground (arith, parse_filter_list-IsAscending s o.filter.exclude_isa)
apply-IsValid o (Argument.include_test s) v =
    ground (arith, parse_filter_list-IsAscending s o.filter.include_test)
apply-IsValid o (Argument.exclude_test s) v =
    ground (arith, parse_filter_list-IsAscending s o.filter.exclude_test)
apply-IsValid o Argument.list_categories v = ground arith
apply-IsValid o Argument.list_instructions v = ground arith
apply-IsValid o (Argument.sweep_instruction s) v = ground arith
apply-IsValid o (Argument.scale_instruction s) v = ground arith
apply-IsValid o Argument.memory_bandwidth v = ground arith
apply-IsValid o (Argument.memory_size_mib s) v =
    set_number o v _ (parse_positive_integer s _) _ (positive-Holds s _) (λ n h. ground arith)
apply-IsValid o (Argument.memory_repetitions s) v =
    Holds->>= _ IsValid (parse_positive_integer s _) _ (positive-Holds s _)
      (λ n h. set_repetitions-IsValid o v n h.0)
apply-IsValid o (Argument.save s) v = ground arith
apply-IsValid o (Argument.output s) v = ground arith
apply-IsValid o (Argument.save_format s) v = set_format-IsValid o v s
apply-IsValid o (Argument.output_format s) v = set_format-IsValid o v s
apply-IsValid o (Argument.unknown s) v = tt

parse_arguments-IsValid :
    (o : CliOptions) (args : List Bytes) → IsValid o → Holds IsValid (parse_arguments o args)
unfolding parse_arguments
parse_arguments-IsValid o [] v = v
parse_arguments-IsValid o (arg ∷ args) v =
    Holds->>= IsValid IsValid (apply o (classify arg)) _ (apply-IsValid o (classify arg) v)
      (λ next n. parse_arguments-IsValid next args n)

mode_tests-IsAscending :
    (m : BenchMode) (tests : List Bytes) → IsAscending tests → IsAscending (mode_tests m tests)
unfolding mode_tests
mode_tests-IsAscending all tests h = h
mode_tests-IsAscending cache tests h = insert-IsAscending _ _ h
mode_tests-IsAscending compute tests h =
    insert-IsAscending _ _ (insert-IsAscending _ _ (insert-IsAscending _ _ h))

apply_mode-IsValid : (o : CliOptions) → IsValid o → Holds IsValid (apply_mode o)
unfolding apply_mode
apply_mode-IsValid o v = ground (arith, mode_tests-IsAscending o.mode o.filter.include_test)

-- Whatever the arguments are: if they are accepted, the options are valid.
pub parse_cli_options-IsValid :
    (argv : List Bytes) (o : CliOptions) → parse_cli_options argv default_options ≡ ok o → IsValid o
unfolding parse_cli_options
parse_cli_options-IsValid argv o h = Holds-ok IsValid h (
    Holds->>= IsValid IsValid (parse_arguments default_options argv) apply_mode
      (parse_arguments-IsValid default_options argv default-IsValid) apply_mode-IsValid)
