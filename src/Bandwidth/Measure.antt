-- ===== src/Bandwidth/Measure.antt =====
-- common/cache/memory_bandwidth.cpp: measure_stream_bandwidth and measure_parallel_stream_bandwidth.
use cpufb.Base.{
  ℕ, zero, suc, ◌-◌, ◌*◌, ◌/◌, ◌%◌, List, [], ◌∷◌, ◌++◌, Option, none, some, Bool, true, false, not,
  ◌&&◌, ◌||◌, Bytes, ltb, ◌==◌, if◌then◌else◌, ◌>>=◌, max_int, max_u64, u64, length, get_elem?,
  is_some,
}
use cpufb.Doubles.{Doubles, at_most}
use cpufb.Bandwidth.Workset.{Workset}
use cpufb.Bandwidth.Streams.{
  KernelSpec, BandwidthSample, BandwidthReport, Action, allocated, freed, pool_created,
  pool_destroyed, streamed, ran_all, StreamError, not_pinned, too_large, not_multiple,
  too_many_blocks, not_allocated, no_cpus, no_workers, not_initialized, not_warm, not_synchronized,
  timing_failed, no_samples, Outcome, measured, failed, KernelRun, sum_cycles, stream_cycle_source,
  pool_cycle_source, parallel_stream_elapsed_seconds, per_cycle, cycles_or, sample_once, is_timed,
}

-- What is answered to the measurement of one stream: the pinning, the status of the allocation,
-- whether a counter could be opened, the clock that stands in for it, and the calls of the kernel.
pub record StreamAnswers {ℓ} (F : Type ℓ) : Type ℓ where
  pub pinned : Bool
  pub allocation_status : ℕ
  pub counter_available : Bool
  pub frequency_hz : F
  pub frequency_source : Bytes
  pub runs : ℕ → KernelRun

-- The same for a pool: whether its workers could be made, initialize and warm up, the clock of each
-- CPU, and for each repetition the calls of the workers, `none` where tpool_run_all fails.
pub record PoolAnswers {ℓ} (F : Type ℓ) : Type ℓ where
  pub allocation_status : ℕ
  pub pool_available : Bool
  pub initialized : Bool
  pub warmed : Bool
  pub frequency : ℕ → F × Bytes
  pub rounds : ℕ → Option (List KernelRun)

-- The loop over the repetitions: the samples in their order and whether all of them counted cycles,
-- or the error that ends it.
pub data Samples {ℓ} (F : Type ℓ) : Type ℓ where
  taken : List (BandwidthSample F) → Bool → Samples F
  stopped : StreamError → Samples F

abbrev pub put_sample {ℓ} : {F : Type ℓ} → BandwidthSample F → Bool → Samples F → Samples F
put_sample sample counted (taken samples all) = taken (sample ∷ samples) (counted && all)
put_sample sample counted (stopped error) = stopped error

abbrev pub outcome_of {ℓ} : {F : Type ℓ} → Option (BandwidthReport F) → Outcome F
outcome_of none = failed no_samples
outcome_of (some report) = measured report

module _ {ℓ} {F : Type ℓ} (fl : Doubles F) where
  unfoldable pub stream_samples : F → F → F → (ℕ → KernelRun) → ℕ → ℕ → Samples F × List Action
  unfolding sample_once is_timed
  stream_samples bytes loads frequency_hz runs repetition zero = (taken [] true, [])
  stream_samples bytes loads frequency_hz runs repetition (suc more) =
      let sample = sample_once fl bytes loads frequency_hz (runs repetition) in
      let rest = stream_samples bytes loads frequency_hz runs (suc repetition) more in
      if is_timed fl sample
      then (put_sample sample sample.counted_cycles rest.0, streamed ∷ rest.1)
      else (stopped timing_failed, streamed ∷ [])

  -- A sample of all the workers.
  unfoldable pub pool_sample : F → F → F → Bool → List KernelRun → BandwidthSample F × Bool
  unfolding sum_cycles cycles_or per_cycle parallel_stream_elapsed_seconds
  pool_sample bytes loads frequency_hz frequency_known runs =
      let seconds = parallel_stream_elapsed_seconds fl runs in
      let total = sum_cycles 0 runs in
      let cycles = elim total as (λ _. ℕ) [ none ↦ 0 | some n ↦ n ] in
      let clocked = cycles_or fl cycles seconds frequency_known frequency_hz in
      (
        record {
          seconds = seconds;
          gb_per_second = fl.divide (fl.divide bytes seconds) (fl.literal 1000000000);
          bytes_per_cycle = per_cycle fl bytes clocked;
          load_ipc = per_cycle fl loads clocked;
          counted_cycles = false;
        },
        is_some total,
      )

  unfoldable pub pool_samples :
      F → F → F → Bool → (ℕ → Option (List KernelRun)) → ℕ → ℕ → Samples F × List Action
  unfolding pool_sample is_timed
  pool_samples bytes loads frequency_hz known rounds repetition zero = (taken [] true, [])
  pool_samples bytes loads frequency_hz known rounds repetition (suc more) =
      elim (rounds repetition) [
        | none ↦ (stopped not_synchronized, ran_all ∷ [])
        | some runs ↦
            let sample = pool_sample bytes loads frequency_hz known runs in
            let rest = pool_samples bytes loads frequency_hz known rounds (suc repetition) more in
            if is_timed fl sample.0
            then (put_sample sample.0 sample.1 rest.0, ran_all ∷ rest.1)
            else (stopped timing_failed, ran_all ∷ [])
      ]

  -- The clocks of the CPUs: whether all of them are known, their sum, and the last source.
  unfoldable pub sum_frequencies : (ℕ → F × Bytes) → F → Bytes → List ℕ → Bool × F × Bytes
  sum_frequencies frequency total source [] = (true, total, source)
  sum_frequencies frequency total source (cpu ∷ cpus) =
      let read = frequency cpu in
      let rest = sum_frequencies frequency (fl.plus total read.0) read.1 cpus in
      if at_most fl read.0 (fl.literal 0) then (false, total, read.1) else rest

  module _ (sort : List (BandwidthSample F) → List (BandwidthSample F)) where
    -- The report on samples that are sorted. Without a sample, the code reads out of bounds.
    unfoldable pub report_on :
        KernelSpec → Workset → ℕ → ℕ → ℕ → Bytes → List (BandwidthSample F) → Outcome F
    report_on kernel workset total streams passes cycle_source samples = outcome_of (do
      median ← get_elem? samples (length samples / 2)
      front ← get_elem? samples 0
      back ← get_elem? samples (length samples - 1)
      some (record {
        bytes = workset.bytes;
        total_bytes = total;
        stream_count = streams;
        passes_per_sample = passes;
        kernel = kernel.name;
        workset_source = workset.source;
        cycle_source = cycle_source;
        median = median;
        minimum_gb_per_second = front.gb_per_second;
        maximum_gb_per_second = back.gb_per_second;
      }))

    -- What follows the loop of measure_stream_bandwidth.
    unfoldable pub stream_report :
        KernelSpec → Workset → ℕ → StreamAnswers F → Samples F → Outcome F
    unfolding report_on stream_cycle_source
    stream_report kernel workset passes answers (stopped error) = failed error
    stream_report kernel workset passes answers (taken samples all_counted) =
        report_on kernel workset workset.bytes 1 passes
          (stream_cycle_source answers.counter_available all_counted
            (fl.less (fl.literal 0) answers.frequency_hz) answers.frequency_source)
          (sort samples)

    unfoldable pub measure_stream_bandwidth :
        KernelSpec → Workset → ℕ → ℕ → StreamAnswers F → Outcome F × List Action
    unfolding stream_samples stream_report
    measure_stream_bandwidth kernel workset repetitions passes answers =
        let inner_loop = workset.bytes / kernel.bytes_per_block in
        let bytes = fl.times (fl.literal workset.bytes) (fl.literal passes) in
        let loads =
          fl.times (fl.literal (u64 (inner_loop * kernel.loads_per_block))) (fl.literal passes) in
        let samples = stream_samples bytes loads answers.frequency_hz answers.runs 0 repetitions in
        if not answers.pinned
        then (failed not_pinned, [])
        else if workset.bytes == 0 || ltb max_u64 workset.bytes
        then (failed too_large, [])
        else if ltb workset.bytes kernel.bytes_per_block
            || not (workset.bytes % kernel.bytes_per_block == 0)
        then (failed not_multiple, [])
        else if ltb max_int inner_loop
        then (failed too_many_blocks, [])
        else if not (answers.allocation_status == 0)
        then (failed not_allocated, [])
        else (
          stream_report kernel workset passes answers samples.0,
          allocated ∷ streamed ∷ samples.1 ++ freed ∷ [],
        )

    -- What follows the loop of measure_parallel_stream_bandwidth.
    unfoldable pub pool_report :
        KernelSpec → Workset → ℕ → ℕ → ℕ → Bool × F × Bytes → Samples F → Outcome F
    unfolding report_on pool_cycle_source
    pool_report kernel workset total streams passes clock (stopped error) = failed error
    pool_report kernel workset total streams passes clock (taken samples all_counted) =
        report_on kernel workset total streams passes
          (pool_cycle_source all_counted clock.0 clock.2) (sort samples)

    -- measure_parallel_stream_bandwidth behind its checks.
    unfoldable pub run_streams :
        KernelSpec → Workset → List ℕ → ℕ → ℕ → PoolAnswers F → Outcome F × List Action
    unfolding pool_samples sum_frequencies pool_report
    run_streams kernel workset cpus repetitions passes answers =
        let streams = length cpus in
        let total = u64 (workset.bytes * streams) in
        let inner_loop = workset.bytes / kernel.bytes_per_block in
        let clock = sum_frequencies answers.frequency (fl.literal 0) [] cpus in
        let bytes = fl.times (fl.literal total) (fl.literal passes) in
        let loads =
          fl.times
            (fl.times (fl.times (fl.literal inner_loop) (fl.literal kernel.loads_per_block))
              (fl.literal streams))
            (fl.literal passes) in
        let samples = pool_samples bytes loads clock.1 clock.0 answers.rounds 0 repetitions in
        if not (answers.allocation_status == 0)
        then (failed not_allocated, [])
        else if not answers.pool_available
        then (failed no_workers, allocated ∷ freed ∷ [])
        else if not answers.initialized
        then (
          failed not_initialized,
          allocated ∷ pool_created ∷ ran_all ∷ pool_destroyed ∷ freed ∷ [],
        )
        else if not answers.warmed
        then (
          failed not_warm,
          allocated ∷ pool_created ∷ ran_all ∷ ran_all ∷ pool_destroyed ∷ freed ∷ [],
        )
        else (
          pool_report kernel workset total streams passes clock samples.0,
          allocated ∷ pool_created ∷ ran_all ∷ ran_all ∷ samples.1 ++ pool_destroyed ∷ freed ∷ [],
        )

    unfoldable pub measure_parallel_stream_bandwidth :
        KernelSpec
        → Workset
        → List ℕ
        → ℕ
        → ℕ
        → StreamAnswers F
        → PoolAnswers F
        → Outcome F × List Action
    unfolding measure_stream_bandwidth run_streams
    measure_parallel_stream_bandwidth kernel workset [] repetitions passes one many =
        (failed no_cpus, [])
    measure_parallel_stream_bandwidth kernel workset (cpu ∷ []) repetitions passes one many =
        measure_stream_bandwidth kernel workset repetitions passes one
    measure_parallel_stream_bandwidth kernel workset (cpu ∷ next ∷ cpus) repetitions passes one
          many =
        let streams = length (cpu ∷ next ∷ cpus) in
        if workset.bytes == 0
          || ltb max_u64 workset.bytes
          || ltb workset.bytes kernel.bytes_per_block
          || not (workset.bytes % kernel.bytes_per_block == 0)
        then (failed not_multiple, [])
        else if ltb (max_u64 / streams) workset.bytes
        then (failed too_large, [])
        else if ltb max_u64 (u64 (workset.bytes * streams))
        then (failed too_large, [])
        else if ltb max_int (workset.bytes / kernel.bytes_per_block)
        then (failed too_many_blocks, [])
        else run_streams kernel workset (cpu ∷ next ∷ cpus) repetitions passes many
