-- ===== src/Bandwidth/Tests.antt =====
-- common/cache/memory_bandwidth.cpp: the streams on concrete machines.
use cpufb.Base.{
  ℕ, ◌+◌, ◌-◌, ◌*◌, ◌/◌, ◌^◌, ◌≡◌, ◌≤◌, ◌<◌, ◌⊎◌, refl, [], ◌∷◌, none, some, true, codes, ltb, ◌==◌,
  if◌then◌else◌, arith,
}
use cpufb.Text.Decimal.{to_string}
use cpufb.Cli.Options.{CliOptions, default_options}
use cpufb.Table.{empty, set_column_num}
use cpufb.Table.Layout.{set_column_num-IsValid}
use cpufb.Cache.Levels.{CacheLevelInfo, no_level, no_last_level}
use cpufb.Doubles.{Doubles}
use cpufb.Bandwidth.Workset.{
  Workset, minimum_auto_stream_bytes, select_parallel_l3_workset, select_memory_workset,
}
use cpufb.Bandwidth.Within.{Within, select_parallel_l3_workset-Within}
use cpufb.Bandwidth.Streams.{KernelSpec, KernelRun, failed, not_pinned, not_synchronized}
use cpufb.Bandwidth.Measure.{StreamAnswers, PoolAnswers, measure_parallel_stream_bandwidth}
use cpufb.Bandwidth.Released.{Released, measure_parallel_stream_bandwidth-Released}
use cpufb.Bandwidth.Slices.{slice_of, slices-Apart, select_memory_workset-fits}
use cpufb.Bandwidth.Rows.{append_cache_memory_bandwidth}
use cpufb.Bandwidth.Added.{Adds, itself, append_cache_memory_bandwidth-Adds}

abbrev mib_ : ℕ
mib_ = 1048576

-- A machine whose cores have 1 MiB of L2 and share 32 MiB of L3.
abbrev machine : ℕ → ℕ → CacheLevelInfo
machine cpu level =
    if level == 3
    then record no_level { bytes = 32 * mib_; source = codes "sysfs" }
    else record no_level { bytes = mib_; source = codes "sysfs" }

-- The workset of two streams there, where one core measured 16 MiB.
abbrev chosen : Workset
chosen = elim (select_parallel_l3_workset machine (0 ∷ 1 ∷ []) 1024 (16 * mib_)) as (λ _. Workset) [
  | none ↦ record { bytes = 0; source = [] }
  | some w ↦ w
]

select_parallel_l3_workset-Within_example : Within machine 0 (0 ∷ 1 ∷ []) 1024 (16 * mib_) chosen
unfolding cpufb.Bandwidth.Workset.select_parallel_l3_workset
select_parallel_l3_workset-Within_example =
    select_parallel_l3_workset-Within machine 0 (1 ∷ []) 1024 (16 * mib_) chosen refl

slices-Apart_example :
    (slice_of 4 0 1024 0 + 1024 ≤ 1024 * 4)
    × (slice_of 4 2 1024 3 + 1024 ≤ 1024 * 4)
    × ((slice_of 4 0 1024 0 + 1024 ≤ slice_of 4 2 1024 3)
        ⊎ (slice_of 4 2 1024 3 + 1024 ≤ slice_of 4 0 1024 0))
slices-Apart_example =
    slices-Apart 4 0 2 1024 0 3 (omega arith) (omega arith) (omega arith) (omega arith)

-- 8 streams on 1 GiB.
abbrev shared : Workset
shared =
    elim (select_memory_workset default_options no_last_level (1024 * mib_) 8 1024)
      as (λ _. Workset) [ none ↦ record { bytes = 0; source = [] } | some w ↦ w ]

select_memory_workset-fits_example :
    (shared.bytes * 8 ≤ 1024 * mib_) × (minimum_auto_stream_bytes < shared.bytes + 1024)
unfolding cpufb.Bandwidth.Workset.select_memory_workset cpufb.Cli.Options.default_options
    cpufb.Cache.Sizes.recommended_stream_workset_bytes
select_memory_workset-fits_example =
    select_memory_workset-fits default_options no_last_level (1024 * mib_) 8 1024 shared refl
      (omega arith) (omega arith) (omega arith) refl

-- Whole numbers for `double`.
abbrev whole : Doubles ℕ
whole = record {
  less = ltb;
  equal = ◌==◌;
  plus = ◌+◌;
  times = ◌*◌;
  divide = ◌/◌;
  literal = λ n. n;
  difference = ◌-◌;
  decimal = λ digits places. digits / 10 ^ places;
  is_finite = λ x. true;
  fixed = λ digits x. to_string x;
}

abbrev kernel : KernelSpec
kernel = record { name = codes "load"; bytes_per_block = 64; loads_per_block = 4 }

abbrev second : KernelRun
second = record {
  start = record { tv_sec = 1; tv_nsec = 0 };
  end = record { tv_sec = 2; tv_nsec = 0 };
  cycles = some 3000;
}

abbrev one_stream : StreamAnswers ℕ
one_stream = record {
  pinned = true;
  allocation_status = 0;
  counter_available = true;
  frequency_hz = 0;
  frequency_source = codes "unavailable";
  runs = λ i. second;
}

-- A pool that fails at its second repetition.
abbrev two_streams : PoolAnswers ℕ
two_streams = record {
  allocation_status = 0;
  pool_available = true;
  initialized = true;
  warmed = true;
  frequency = λ cpu. (0, codes "unavailable");
  rounds = λ i. if i == 0 then some (second ∷ second ∷ []) else none;
}

measure_parallel_stream_bandwidth-Released_example : Released (
    measure_parallel_stream_bandwidth whole
      (λ samples. samples)
      kernel
      (record { bytes = 4096; source = [] })
      (0 ∷ 1 ∷ [])
      3
      1
      one_stream
      two_streams)
measure_parallel_stream_bandwidth-Released_example =
    measure_parallel_stream_bandwidth-Released whole (λ samples. samples) kernel
      (record { bytes = 4096; source = [] }) (0 ∷ 1 ∷ []) 3 1 one_stream two_streams

second_repetition_fails :
    (measure_parallel_stream_bandwidth whole
      (λ samples. samples)
      kernel
      (record { bytes = 4096; source = [] })
      (0 ∷ 1 ∷ [])
      3
      1
      one_stream
      two_streams).0
    ≡ failed not_synchronized
unfolding measure_parallel_stream_bandwidth
second_repetition_fails = refl

append_cache_memory_bandwidth-Adds_example : Adds itself 1 6 (set_column_num empty 6) (
    append_cache_memory_bandwidth whole
      (λ k w p. failed not_pinned)
      (0 ∷ [])
      kernel
      none
      none
      none
      none
      (some (record { bytes = 4096; source = [] }))
      (set_column_num empty 6))
unfolding set_column_num empty
append_cache_memory_bandwidth-Adds_example =
    append_cache_memory_bandwidth-Adds whole 0 [] (λ k w p. failed not_pinned) kernel none none none
      none (some (record { bytes = 4096; source = [] })) (set_column_num empty 6)
      (set_column_num-IsValid empty 6 refl) (omega arith)
