-- ===== src/Bandwidth/Streams.antt =====
-- common/cache/memory_bandwidth.cpp: the measurement of one stream and of the streams of a pool. What the
-- operating system, the kernels and the clock answer is an argument, as is `std::sort`. The result
-- stands beside what was done with the memory and the workers, in its order.
use cpufb.Base.{
  ℕ, ◌+◌, List, [], ◌∷◌, ◌++◌, Option, none, some, Bool, not, ◌&&◌, ◌||◌, Bytes, codes, ltb, ◌==◌,
  if◌then◌else◌, u64,
}
use cpufb.Text.Bytes.{bytes_eq}
use cpufb.Doubles.{Doubles, at_most}

-- StreamKernelSpec, but for its function.
pub record KernelSpec : Type 0 where
  pub name : Bytes
  pub bytes_per_block : ℕ
  pub loads_per_block : ℕ

pub record Timespec : Type 0 where
  pub tv_sec : ℕ
  pub tv_nsec : ℕ

pub record BandwidthSample {ℓ} (F : Type ℓ) : Type ℓ where
  pub seconds : F
  pub gb_per_second : F
  pub bytes_per_cycle : F
  pub load_ipc : F
  pub counted_cycles : Bool

pub record BandwidthReport {ℓ} (F : Type ℓ) : Type ℓ where
  pub bytes : ℕ
  pub total_bytes : ℕ
  pub stream_count : ℕ
  pub passes_per_sample : ℕ
  pub kernel : Bytes
  pub workset_source : Bytes
  pub cycle_source : Bytes
  pub median : BandwidthSample F
  pub minimum_gb_per_second : F
  pub maximum_gb_per_second : F

-- What is done with the memory and the workers: a kernel over the memory, on this thread or on the
-- workers, between the calls that take and give back.
pub data Action : Type 0 where
  allocated freed pool_created pool_destroyed streamed ran_all : Action

pub data StreamError : Type 0 where
  not_pinned too_large not_multiple too_many_blocks not_allocated no_cpus no_workers : StreamError
  not_initialized not_warm not_synchronized timing_failed no_samples : StreamError

pub data Outcome {ℓ} (F : Type ℓ) : Type ℓ where
  measured : BandwidthReport F → Outcome F
  failed : StreamError → Outcome F

-- A measured call of a kernel: the clock before and after it, and the cycles, `none` where no counter
-- was started.
pub record KernelRun : Type 0 where
  pub start : Timespec
  pub end : Timespec
  pub cycles : Option ℕ

unfoldable pub timespec_before : Timespec → Timespec → Bool
timespec_before left right =
    ltb left.tv_sec right.tv_sec || left.tv_sec == right.tv_sec && ltb left.tv_nsec right.tv_nsec

-- The loop of parallel_stream_elapsed_seconds.
unfoldable pub span_from : Timespec → Timespec → List KernelRun → Timespec × Timespec
unfolding timespec_before
span_from first last [] = (first, last)
span_from first last (run ∷ runs) =
    span_from (if timespec_before run.start first then run.start else first)
      (if timespec_before last run.end then run.end else last) runs

-- The sum of the cycles, `none` where a worker has none: its 0 stays from the reset of the task.
unfoldable pub sum_cycles : ℕ → List KernelRun → Option ℕ
sum_cycles total [] = some total
sum_cycles total (run ∷ runs) = elim run.cycles [
  | none ↦ none
  | some cycles ↦
      let rest = sum_cycles (u64 (total + cycles)) runs in if cycles == 0 then none else rest
]

-- The two texts of the cycles of one stream.
unfoldable pub stream_cycle_source : Bool → Bool → Bool → Bytes → Bytes
unfolding bytes_eq
stream_cycle_source available all_counted fallback fallback_source =
    let source = if available then codes "perf CPU cycles" else fallback_source in
    if not all_counted && bytes_eq source (codes "perf CPU cycles")
    then (if fallback
        then fallback_source ++ codes " (perf event counted 0 cycles)"
        else codes "unavailable (perf event counted 0 cycles)")
    else source

unfoldable pub pool_cycle_source : Bool → Bool → Bytes → Bytes
pool_cycle_source all_counted fallback fallback_source =
    if all_counted
    then codes "perf CPU cycles (sum over cores)"
    else if fallback
    then fallback_source ++ codes " (sum over cores)"
    else codes "unavailable"

module _ {ℓ} {F : Type ℓ} (fl : Doubles F) where
  unfoldable pub elapsed_seconds : Timespec → Timespec → F
  elapsed_seconds start end =
      fl.plus (fl.difference end.tv_sec start.tv_sec)
        (fl.times (fl.difference end.tv_nsec start.tv_nsec) (fl.decimal 1 9))

  unfoldable pub parallel_stream_elapsed_seconds : List KernelRun → F
  unfolding span_from elapsed_seconds
  parallel_stream_elapsed_seconds [] = fl.literal 0
  parallel_stream_elapsed_seconds (run ∷ runs) =
      let span = span_from run.start run.end runs in elapsed_seconds span.0 span.1

  -- A quotient by the cycles, 0 without them.
  unfoldable pub per_cycle : F → F → F
  per_cycle amount cycles =
      if fl.less (fl.literal 0) cycles then fl.divide amount cycles else fl.literal 0

  -- The cycles, or the time on a clock that is known.
  unfoldable pub cycles_or : ℕ → F → Bool → F → F
  cycles_or cycles seconds known frequency_hz =
      let counted = fl.literal cycles in
      if fl.equal counted (fl.literal 0) && known then fl.times seconds frequency_hz else counted

  -- measure_once behind its call of the kernel.
  unfoldable pub sample_once : F → F → F → KernelRun → BandwidthSample F
  unfolding elapsed_seconds per_cycle cycles_or
  sample_once bytes load_instructions frequency_hz run =
      let cycles = elim run.cycles as (λ _. ℕ) [ none ↦ 0 | some n ↦ n ] in
      let seconds = elapsed_seconds run.start run.end in
      let clocked = cycles_or cycles seconds (fl.less (fl.literal 0) frequency_hz) frequency_hz in
      record {
        seconds = seconds;
        gb_per_second = fl.divide (fl.divide bytes seconds) (fl.literal 1000000000);
        bytes_per_cycle = per_cycle bytes clocked;
        load_ipc = per_cycle load_instructions clocked;
        counted_cycles = ltb 0 cycles;
      }

  -- The check behind a sample.
  unfoldable pub is_timed : BandwidthSample F → Bool
  is_timed sample =
      not (at_most fl sample.seconds (fl.literal 0)) && fl.is_finite sample.gb_per_second
