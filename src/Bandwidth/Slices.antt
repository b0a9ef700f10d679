-- ===== src/Bandwidth/Slices.antt =====
-- common/cache/memory_bandwidth.cpp: the slice of the memory that a worker of a pool streams, and the
-- share of a stream in the memory that is free.
use native.Mathlib.Nat.{div-mul-le_self, mul-le-mul_right, mod-lt}
use cpufb.Base.{
  ℕ, suc, ◌+◌, ◌*◌, ◌/◌, ◌%◌, ◌≡◌, ◌⊎◌, inl, inr, ◌≤◌, ◌<◌, ◌≢◌, false, ltb, some, if◌then◌else◌,
  arith, max_u64, u64,
}
use cpufb.Cli.Options.{CliOptions}
use cpufb.Cache.Levels.{LastLevelCacheInfo}
use cpufb.Cache.Sizes.{recommended_stream_workset_bytes}
use cpufb.Bandwidth.Workset.{
  Workset, minimum_auto_stream_bytes, recommended, capped_bytes, auto_workset,
  select_memory_workset,
}

-- parallel_worker_index, with the counter of the task in front of it and behind it; `pool_index` is
-- what tpool_worker_index answers.
unfoldable pub parallel_worker_index : ℕ → ℕ → ℕ → ℕ × ℕ
parallel_worker_index workers next_worker pool_index =
    if ltb pool_index workers
    then (pool_index, next_worker)
    else (next_worker % workers, u64 (next_worker + 1))

-- Where the slice of a worker begins in the memory.
unfoldable pub parallel_worker_data : ℕ → ℕ → ℕ
parallel_worker_data worker_index stream_bytes = u64 (worker_index * stream_bytes)

-- The begin of the slice that a worker streams.
unfoldable pub slice_of : ℕ → ℕ → ℕ → ℕ → ℕ
unfolding parallel_worker_index parallel_worker_data
slice_of workers next_worker stream_bytes pool_index =
    parallel_worker_data (parallel_worker_index workers next_worker pool_index).0 stream_bytes

slice_of-begin :
    (workers next_worker stream_bytes i : ℕ)
    → i < workers
    → stream_bytes * workers ≤ max_u64
    → (slice_of workers next_worker stream_bytes i ≡ i * stream_bytes)
      × (i * stream_bytes + stream_bytes ≤ stream_bytes * workers)
unfolding slice_of
slice_of-begin workers next_worker stream_bytes i h fits =
    let above : suc i * stream_bytes ≤ workers * stream_bytes = mul-le-mul_right stream_bytes h in
    (ground (arith, above, fits), omega (arith, above))

-- Whatever the counter of the task: two different workers of a pool stream slices that lie within
-- the memory for all of them and do not overlap.
pub slices-Apart :
    (workers next other stream_bytes i j : ℕ)
    → i < workers
    → j < workers
    → i ≢ j
    → stream_bytes * workers ≤ max_u64
    → (slice_of workers next stream_bytes i + stream_bytes ≤ stream_bytes * workers)
      × (slice_of workers other stream_bytes j + stream_bytes ≤ stream_bytes * workers)
      × ((slice_of workers next stream_bytes i + stream_bytes
            ≤ slice_of workers other stream_bytes j)
          ⊎ (slice_of workers other stream_bytes j + stream_bytes
              ≤ slice_of workers next stream_bytes i))
slices-Apart workers next other stream_bytes i j hi hj apart fits =
    let a = slice_of-begin workers next stream_bytes i hi fits in
    let b = slice_of-begin workers other stream_bytes j hj fits in
    let ordered : (i < j) ⊎ (j < i) = ground (arith, apart) in
    (
      omega (arith, a.0, a.1),
      omega (arith, b.0, b.1),
      elim ordered [
        | inl less ↦
            let gap : suc i * stream_bytes ≤ j * stream_bytes =
              mul-le-mul_right stream_bytes less in
            inl (omega (arith, a.0, b.0, gap))
        | inr less ↦
            let gap : suc j * stream_bytes ≤ i * stream_bytes =
              mul-le-mul_right stream_bytes less in
            inr (omega (arith, a.0, b.0, gap))
      ],
    )

-- Without the option, and with a budget: what select_memory_workset chooses fits the budget for all
-- the streams together, and misses 32 MiB for each of them by less than a block.
pub select_memory_workset-fits :
    (options : CliOptions) (cache : LastLevelCacheInfo) (budget streams block : ℕ) (w : Workset)
    → options.memory_size_set ≡ false
    → 0 < budget
    → 0 < streams
    → 0 < block
    → select_memory_workset options cache budget streams block ≡ some w
    → (w.bytes * streams ≤ budget) × (minimum_auto_stream_bytes < w.bytes + block)
unfolding select_memory_workset auto_workset recommended capped_bytes
    recommended_stream_workset_bytes
select_memory_workset-fits options cache budget streams block w auto hb hs hk e =
    let share = budget / streams in
    let covered : share * streams ≤ budget = div-mul-le_self budget streams in
    let rest : share % block < block = mod-lt share hk in
    let found : (w.bytes ≤ share) × (minimum_auto_stream_bytes < w.bytes + block) =
      ground (arith, e, auto, rest) in
    let below : w.bytes * streams ≤ share * streams = mul-le-mul_right streams found.0 in
    (omega (arith, below, covered), found.1)
