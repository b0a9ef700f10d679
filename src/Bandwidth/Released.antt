-- ===== src/Bandwidth/Released.antt =====
-- common/cache/memory_bandwidth.cpp: the memory and the workers of a measurement.
use cpufb.Base.{
  u64, ◌*◌, ◌/◌, length, ℕ, zero, suc, ◌≡◌, refl, ap, List, [], ◌∷◌, ◌++◌, Option, none, some, Bool,
  ◌>>=◌, arith, Bool-cases, Option-cases, bind-some, inl, inr,
}
use cpufb.Doubles.{Doubles}
use cpufb.Bandwidth.Workset.{Workset}
use cpufb.Bandwidth.Streams.{
  KernelSpec, BandwidthSample, Action, allocated, freed, pool_created, pool_destroyed, streamed,
  ran_all, KernelRun, is_timed, sample_once,
}
use cpufb.Bandwidth.Measure.{
  StreamAnswers, PoolAnswers, stream_samples, pool_sample, pool_samples, sum_frequencies,
  measure_stream_bandwidth, run_streams, measure_parallel_stream_bandwidth,
}

-- What is held: nothing, the memory, or the memory and the workers.
pub data Held : Type 0 where
  nothing memory memory_and_workers : Held

-- What an action makes of it; `none` is an action that must not come: a kernel without its memory or
-- its workers, memory that is taken twice, given back twice or given back under the workers.
unfoldable pub act : Held → Action → Option Held
act nothing allocated = some memory
act memory freed = some nothing
act memory streamed = some memory
act memory pool_created = some memory_and_workers
act memory_and_workers ran_all = some memory_and_workers
act memory_and_workers pool_destroyed = some memory
act held action = none

unfoldable pub act_all : Held → List Action → Option Held
unfolding act
act_all held [] = some held
act_all held (action ∷ actions) = do next ← act held action; act_all next actions

act_all-append :
    (held next : Held) (xs ys : List Action)
    → act_all held xs ≡ some next
    → act_all held (xs ++ ys) ≡ act_all next ys
unfolding act_all
act_all-append held next [] ys e = ap (λ h. act_all h ys) (cc e)
act_all-append held next (x ∷ xs) ys e =
    let (mid, m, rest) = bind-some (act held x) (λ h. act_all h xs) next e in
    rw m (act_all-append mid next xs ys rest)

-- A result with actions, from nothing on each one that may come, and nothing held behind them.
pub record Released {ℓ} {A : Type ℓ} (result : A × List Action) : Type 0 where
  pub clean : act_all nothing result.1 ≡ some nothing

module _ {ℓ} {F : Type ℓ} (fl : Doubles F) where
  stream_samples-held :
      (bytes loads hz : F) (runs : ℕ → KernelRun) (repetition more : ℕ)
      → act_all memory (stream_samples fl bytes loads hz runs repetition more).1 ≡ some memory
  unfolding stream_samples act_all act
  stream_samples-held bytes loads hz runs repetition zero = refl
  stream_samples-held bytes loads hz runs repetition (suc more) =
      elim (Bool-cases (is_timed fl (sample_once fl bytes loads hz (runs repetition)))) [
        | inl e ↦ rw e (stream_samples-held bytes loads hz runs (suc repetition) more)
        | inr e ↦ rw e refl
      ]

  pool_samples-held :
      (bytes loads hz : F) (known : Bool) (rounds : ℕ → Option (List KernelRun))
      (repetition more : ℕ)
      → act_all memory_and_workers (pool_samples fl bytes loads hz known rounds repetition more).1
        ≡ some memory_and_workers
  unfolding pool_samples act_all act
  pool_samples-held bytes loads hz known rounds repetition zero = refl
  pool_samples-held bytes loads hz known rounds repetition (suc more) =
      elim (Option-cases (rounds repetition)) [
        | inl n ↦ rw (pool_samples, n) refl
        | inr (runs, r) ↦
            elim (Bool-cases (is_timed fl (pool_sample fl bytes loads hz known runs).0)) [
              | inl e ↦
                  rw (pool_samples, r, e)
                    (pool_samples-held bytes loads hz known rounds (suc repetition) more)
              | inr e ↦ rw (pool_samples, r, e) refl
            ]
      ]

  module _ (sort : List (BandwidthSample F) → List (BandwidthSample F)) where
    one-Released :
        (kernel : KernelSpec) (workset : Workset) (repetitions passes : ℕ)
        (answers : StreamAnswers F)
        → Released (measure_stream_bandwidth fl sort kernel workset repetitions passes answers)
    unfolding measure_stream_bandwidth act_all act
    one-Released kernel workset repetitions passes answers =
        let inner_loop = workset.bytes / kernel.bytes_per_block in
        let bytes = fl.times (fl.literal workset.bytes) (fl.literal passes) in
        let loads =
          fl.times (fl.literal (u64 (inner_loop * kernel.loads_per_block))) (fl.literal passes) in
        let samples =
          stream_samples fl bytes loads answers.frequency_hz answers.runs 0 repetitions in
        let kept =
          stream_samples-held bytes loads answers.frequency_hz answers.runs 0 repetitions in
        let ends = act_all-append memory memory samples.1 (freed ∷ []) kept in
        record { clean = ground (arith, ends) }

    streams-Released :
        (kernel : KernelSpec) (workset : Workset) (cpus : List ℕ) (repetitions passes : ℕ)
        (answers : PoolAnswers F)
        → Released (run_streams fl sort kernel workset cpus repetitions passes answers)
    unfolding run_streams act_all act
    streams-Released kernel workset cpus repetitions passes answers =
        let inner_loop = workset.bytes / kernel.bytes_per_block in
        let total = u64 (workset.bytes * length cpus) in
        let clock = sum_frequencies fl answers.frequency (fl.literal 0) [] cpus in
        let bytes = fl.times (fl.literal total) (fl.literal passes) in
        let loads =
          fl.times
            (fl.times (fl.times (fl.literal inner_loop) (fl.literal kernel.loads_per_block))
              (fl.literal (length cpus)))
            (fl.literal passes) in
        let samples = pool_samples fl bytes loads clock.1 clock.0 answers.rounds 0 repetitions in
        let kept = pool_samples-held bytes loads clock.1 clock.0 answers.rounds 0 repetitions in
        let ends =
          act_all-append memory_and_workers memory_and_workers samples.1
            (pool_destroyed ∷ freed ∷ []) kept in
        record { clean = ground (arith, ends) }

    -- On every path of measure_parallel_stream_bandwidth, whatever fails: the kernels run only over
    -- memory that is allocated, on the workers only while these are there; the workers are destroyed
    -- before the memory is freed; and at the end nothing is left allocated.
    pub measure_parallel_stream_bandwidth-Released :
        (kernel : KernelSpec) (workset : Workset) (cpus : List ℕ) (repetitions passes : ℕ)
        (one : StreamAnswers F) (many : PoolAnswers F)
        → Released (
            measure_parallel_stream_bandwidth fl sort kernel workset cpus repetitions passes one
              many)
    unfolding measure_parallel_stream_bandwidth act_all act
    measure_parallel_stream_bandwidth-Released kernel workset [] repetitions passes one many =
        record { clean = refl }
    measure_parallel_stream_bandwidth-Released kernel workset (cpu ∷ []) repetitions passes one
          many =
        one-Released kernel workset repetitions passes one
    measure_parallel_stream_bandwidth-Released kernel workset (cpu ∷ next ∷ cpus) repetitions passes
          one many =
        let runs = streams-Released kernel workset (cpu ∷ next ∷ cpus) repetitions passes many in
        record { clean = ground (arith, runs.clean) }
