-- ===== src/Bandwidth/Workset.antt =====
-- common/cache/memory_bandwidth.cpp: how much a stream works on. What the operating system says of the
-- caches of a CPU, and of the memory that is free, are arguments. Sizes are below 2^64, and a block is
-- not empty.
use cpufb.Base.{
  ℕ, ◌+◌, ◌-◌, ◌*◌, ◌/◌, ◌%◌, List, [], ◌∷◌, ◌++◌, Option, none, some, ◌&&◌, ◌||◌, Bytes, codes,
  ltb, leb, ◌==◌, if◌then◌else◌, ◌>>=◌, max, max_u64, u64, length,
}
use cpufb.Cli.Options.{CliOptions}
use cpufb.Cache.Sizes.{format_cache_capacity, recommended_stream_workset_bytes}
use cpufb.Cache.Levels.{CacheLevelInfo, LastLevelCacheInfo}

-- A size in bytes, and the text that says where it comes from.
pub record Workset : Type 0 where
  pub bytes : ℕ
  pub source : Bytes

abbrev pub minimum_auto_stream_bytes : ℕ
minimum_auto_stream_bytes = 33554432

-- The size that is recommended for one stream.
unfoldable pub recommended : LastLevelCacheInfo → Workset
recommended cache = record {
  bytes = recommended_stream_workset_bytes cache.bytes;
  source =
      if cache.bytes == 0
      then codes "auto: 256 MiB fallback (cache topology unavailable)"
      else codes "auto: max(256 MiB, 4 x "
        ++ format_cache_capacity cache.bytes
        ++ codes ") from "
        ++ cache.source;
}

-- The share of one stream in the budget, cut to whole blocks.
unfoldable pub capped_bytes : ℕ → ℕ → ℕ → ℕ
capped_bytes budget stream_count bytes_per_block =
    let capped = budget / stream_count in
    if ltb 0 bytes_per_block then capped - capped % bytes_per_block else capped

-- select_memory_workset behind the option: `none` is a run that is skipped.
unfoldable pub auto_workset : LastLevelCacheInfo → ℕ → ℕ → ℕ → Option Workset
unfolding recommended capped_bytes
auto_workset cache budget stream_count bytes_per_block =
    let whole = recommended cache in
    let capped = capped_bytes budget stream_count bytes_per_block in
    if ltb 0 budget && ltb 0 stream_count && ltb (budget / stream_count) whole.bytes
    then (if ltb (budget / stream_count) minimum_auto_stream_bytes
        then none
        else some (record {
          bytes = capped;
          source =
              whole.source
              ++ codes "; capped to "
              ++ format_cache_capacity capped
              ++ codes "/stream by available memory";
        }))
    else some whole

unfoldable pub select_memory_workset : CliOptions → LastLevelCacheInfo → ℕ → ℕ → ℕ → Option Workset
unfolding auto_workset
select_memory_workset options cache budget stream_count bytes_per_block =
    if options.memory_size_set
    then (if ltb (max_u64 / 1048576) options.memory_size_mib
        then none
        else some (record {
          bytes = u64 (options.memory_size_mib * 1048576);
          source = codes "CLI --memory-size-mib";
        }))
    else auto_workset cache budget stream_count bytes_per_block

-- Three quarters of the L3, or the middle between the L2 and it, cut to whole blocks.
unfoldable pub l3_candidate : ℕ → ℕ → ℕ → ℕ
l3_candidate l3 l2 bytes_per_block =
    let three_quarters = l3 - l3 / 4 in
    let candidate =
      if ltb 0 l2 && leb three_quarters l2 && ltb l2 l3
      then l2 + (l3 - l2) / 2
      else three_quarters in
    candidate - candidate % bytes_per_block

module _ (levels : ℕ → ℕ → CacheLevelInfo) where
  unfoldable pub select_l3_workset : ℕ → ℕ → Option Workset
  unfolding l3_candidate
  select_l3_workset cpu bytes_per_block =
      let l3 = levels cpu 3 in
      let l2 = levels cpu 2 in
      let candidate = l3_candidate l3.bytes l2.bytes bytes_per_block in
      if l3.bytes == 0
      then none
      else if candidate == 0 || leb l3.bytes candidate || ltb 0 l2.bytes && leb candidate l2.bytes
      then none
      else some (record {
        bytes = candidate;
        source =
            codes "auto: L2 < workset < L3 ("
            ++ format_cache_capacity l3.bytes
            ++ codes ") from "
            ++ l3.source;
      })

  -- The largest L2 of the CPUs.
  unfoldable pub largest_l2 : ℕ → List ℕ → ℕ
  largest_l2 largest [] = largest
  largest_l2 largest (cpu ∷ cpus) = largest_l2 (max largest (levels cpu 2).bytes) cpus

-- cap_to_measured_level, which always succeeds.
unfoldable pub cap_to_measured_level : ℕ → ℕ → Workset → Workset
cap_to_measured_level measured_bytes bytes_per_block workset =
    let three_quarters = measured_bytes - measured_bytes / 4 in
    let cap = three_quarters - three_quarters % bytes_per_block in
    if measured_bytes == 0
    then workset
    else if cap == 0 || leb workset.bytes cap
    then workset
    else record {
      bytes = cap;
      source =
          workset.source
          ++ codes "; capped to "
          ++ format_cache_capacity cap
          ++ codes ", 3/4 of the "
          ++ format_cache_capacity measured_bytes
          ++ codes " last level one core measured";
    }

module _ (levels : ℕ → ℕ → CacheLevelInfo) where
  -- The streams of several CPUs, `first` the first of them.
  unfoldable pub shared_workset : ℕ → List ℕ → ℕ → ℕ → ℕ → Option Workset
  unfolding largest_l2 cap_to_measured_level
  shared_workset first cpus bytes_per_block measured_last_level_bytes aggregate_bytes =
      let l2 = largest_l2 levels 0 cpus in
      let share = aggregate_bytes / length cpus in
      let per_stream = share - share % bytes_per_block in
      let capped =
        cap_to_measured_level measured_last_level_bytes bytes_per_block
          (record { bytes = per_stream; source = [] }) in
      let l3 = levels first 3 in
      if per_stream == 0 || leb per_stream l2
      then none
      else if leb capped.bytes l2
      then none
      else some (record {
        bytes = capped.bytes;
        source =
            codes "auto: "
            ++ format_cache_capacity (u64 (capped.bytes * length cpus))
            ++ codes " aggregate / "
            ++ format_cache_capacity capped.bytes
            ++ codes " per stream; L2 < per-stream workset < L3 ("
            ++ format_cache_capacity l3.bytes
            ++ codes ") from "
            ++ l3.source
            ++ capped.source;
      })

  unfoldable pub select_parallel_l3_workset : List ℕ → ℕ → ℕ → Option Workset
  unfolding select_l3_workset cap_to_measured_level shared_workset
  select_parallel_l3_workset [] bytes_per_block measured_last_level_bytes = none
  select_parallel_l3_workset (cpu ∷ []) bytes_per_block measured_last_level_bytes = do
    aggregate ← select_l3_workset levels cpu bytes_per_block
    let capped = cap_to_measured_level measured_last_level_bytes bytes_per_block aggregate
    if ltb (levels cpu 2).bytes capped.bytes then some capped else none
  select_parallel_l3_workset (cpu ∷ next ∷ cpus) bytes_per_block measured_last_level_bytes = do
    aggregate ← select_l3_workset levels cpu bytes_per_block
    shared_workset cpu (cpu ∷ next ∷ cpus) bytes_per_block measured_last_level_bytes aggregate.bytes
