-- ===== src/Cache/Report/Doubt.antt =====
-- common/cache/cache_curve.hpp and .cpp: the result of a curve, and what is said of it. What `snprintf` writes is
-- cut off at the size of its buffer.
use cpufb.Base.{
  ℕ, ◌-◌, List, [], ◌∷◌, ◌++◌, Option, none, some, Bool, not, ◌&&◌, ◌||◌, Bytes, codes, leb, ◌==◌,
  if◌then◌else◌, take,
}
use cpufb.Doubles.{Doubles, at_most}
use cpufb.Cache.Curve.{Functions, CacheLatencyPoint, CacheLevelEstimate, never_reached_memory}

pub record RemeasuredPoint {ℓ} (F : Type ℓ) : Type ℓ where
  pub working_set_bytes : ℕ
  pub samples_ns : F × F × F
  pub samples_cycles : F × F × F

pub record CacheCurveResult {ℓ} (F : Type ℓ) : Type ℓ where
  pub points : List (CacheLatencyPoint F)
  pub remeasured : List (RemeasuredPoint F)
  pub levels : List (CacheLevelEstimate F)
  pub memory_latency_ns : F
  pub reached_memory : Bool
  pub translation_mode : Bytes

abbrev pub snprintf : ℕ → Bytes → Bytes
snprintf size text = take (size - 1) text

module _ {ℓ} {F : Type ℓ} (fl : Doubles F) where
  unfoldable pub format_latency_cycles : F → F → F → Bytes
  format_latency_cycles latency_ns counted_cycles fallback_clock_ghz =
      let zero = fl.literal 0 in
      if fl.less zero counted_cycles
      then snprintf 32 (fl.fixed 1 counted_cycles)
      else if fl.less zero fallback_clock_ghz && fl.less zero latency_ns
      then snprintf 32 (fl.fixed 1 (fl.times latency_ns fallback_clock_ghz))
      else codes "-"

  unfoldable pub format_approximate_capacity : ℕ → Bytes
  format_approximate_capacity bytes =
      let kib = fl.literal 1024 in
      if leb 1048576 bytes
      then snprintf 32
          (fl.fixed 1 (fl.divide (fl.literal bytes) (fl.times kib kib)) ++ codes " MiB")
      else snprintf 32 (fl.fixed 0 (fl.divide (fl.literal bytes) kib) ++ codes " KiB")

  unfoldable pub describe_transition : CacheLevelEstimate F → Bytes
  unfolding format_approximate_capacity
  describe_transition level =
      if at_most fl level.transition_width (fl.decimal 25 1) || level.rise_begin_bytes == 0
      then []
      else snprintf 160 (
          codes "latency climbed over "
          ++ format_approximate_capacity level.rise_begin_bytes
          ++ codes " to "
          ++ format_approximate_capacity level.rise_end_bytes
          ++ codes " ("
          ++ fl.fixed 1 level.transition_width
          ++ codes "x), so the boundary is not sharp")

module _ {ℓ} {F : Type ℓ} (fl : Doubles F) (mf : Functions F) where
  -- Whether the latency falls from a point to the next one, below the memory floor.
  unfoldable pub falls : F → F → F → Bool
  falls memory_floor before after =
      not (at_most fl before (fl.literal 0) || at_most fl memory_floor before)
      && not (
          fl.less (mf.minus before after) (fl.decimal 5 1)
          || fl.less (fl.times before (mf.minus (fl.literal 1) (fl.decimal 10 2))) after)

  -- The loop of describe_prefetch_doubt: what it says of the first fall.
  unfoldable pub first_fall : F → CacheLatencyPoint F → List (CacheLatencyPoint F) → Option Bytes
  unfolding falls format_approximate_capacity
  first_fall memory_floor here [] = none
  first_fall memory_floor here (next ∷ points) =
      let later = first_fall memory_floor next points in
      let fell =
        codes "latency fell from "
        ++ fl.fixed 1 here.latency_ns
        ++ codes " ns to "
        ++ fl.fixed 1 next.latency_ns
        ++ codes " ns between "
        ++ format_approximate_capacity fl here.working_set_bytes
        ++ codes " and "
        ++ format_approximate_capacity fl next.working_set_bytes
        ++ codes ", which no cache does, so the capacities here are a prefetcher's" in
      if falls memory_floor here.latency_ns next.latency_ns then some (snprintf 224 fell) else later

  -- `points.back()` of a point and those behind it.
  abbrev back : CacheLatencyPoint F → List (CacheLatencyPoint F) → CacheLatencyPoint F
  back here [] = here
  back here (next ∷ points) = back next points

  -- Behind the loop, on a curve that is not empty.
  unfoldable pub memory_doubt : CacheLatencyPoint F → List (CacheLatencyPoint F) → F → Bool → Bytes
  unfolding format_approximate_capacity
  memory_doubt here points memory_latency_ns reached_memory =
      let never = never_reached_memory fl (here ∷ points) memory_latency_ns in
      let deepest = back here points in
      if reached_memory
      then []
      else if at_most fl memory_latency_ns (fl.literal 0) && not never
      then codes
          "no memory reference could be measured (too little free memory), so the capacities are not checked against memory latency"
      else if not never
      then []
      else snprintf 224 (
          codes "a "
          ++ format_approximate_capacity fl deepest.working_set_bytes
          ++ codes " working set still answered in "
          ++ fl.fixed 1 deepest.latency_ns
          ++ codes
              " ns, so the chase was prefetched throughout and every capacity here may be too large")

  unfoldable pub describe_curve : F → Bool → List (CacheLatencyPoint F) → Bytes
  unfolding first_fall memory_doubt
  describe_curve memory_latency_ns reached_memory [] = []
  describe_curve memory_latency_ns reached_memory (here ∷ points) =
      let memory_floor =
        if fl.less (fl.literal 0) memory_latency_ns
        then fl.times (fl.decimal 5 1) memory_latency_ns
        else fl.literal 0 in
      elim (first_fall memory_floor here points) [
        | some text ↦ text
        | none ↦ memory_doubt here points memory_latency_ns reached_memory
      ]

  unfoldable pub describe_prefetch_doubt : CacheCurveResult F → Bytes
  unfolding describe_curve
  describe_prefetch_doubt result =
      describe_curve result.memory_latency_ns result.reached_memory result.points
