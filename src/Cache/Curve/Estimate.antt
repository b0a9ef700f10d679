-- ===== src/Cache/Curve/Estimate.antt =====
-- common/cache/cache_curve.cpp: estimate_cache_levels and what it reads off the points. `none` is a read out
-- of bounds.
use cpufb.Base.{
  ℕ, zero, suc, ◌+◌, ◌-◌, List, [], ◌∷◌, ◌++◌, Option, some, Bool, false, ◌&&◌, ◌||◌, codes, ◌==◌,
  if◌then◌else◌, ◌>>=◌, get_elem?,
}
use cpufb.Doubles.{Doubles, at_most}
use cpufb.Text.Decimal.{to_string}
use cpufb.Cache.Curve.{Functions, CacheLatencyPoint, CacheLevelEstimate, Plateau, find_plateaus}

module _ {ℓ} {F : Type ℓ} (fl : Doubles F) (mf : Functions F) where
  -- Between a point and the one above it, on a log scale.
  unfoldable pub interpolated : CacheLatencyPoint F → CacheLatencyPoint F → F → ℕ
  interpolated below point target =
      let fraction =
        fl.divide (mf.log (fl.divide target below.latency_ns))
          (mf.log (fl.divide point.latency_ns below.latency_ns)) in
      let lower = fl.literal below.working_set_bytes in
      let upper = fl.literal point.working_set_bytes in
      mf.to_uint64 (fl.times lower (mf.power (fl.divide upper lower) fraction))

  -- The loop of crossing_bytes, `rounds` of it from the point `j` on.
  unfoldable pub crossing_from : List (CacheLatencyPoint F) → ℕ → F → ℕ → ℕ → Option ℕ
  unfolding interpolated
  crossing_from points first target zero j = some 0
  crossing_from points first target (suc rounds) j =
      let later = crossing_from points first target rounds (suc j) in
      (do
        point ← get_elem? points j
        let here = some point.working_set_bytes
        let inner = (do
          below ← get_elem? points (j - 1)
          if at_most fl target below.latency_ns || at_most fl below.latency_ns (fl.literal 0)
              then here
              else some (interpolated below point target))
        if fl.less point.latency_ns target then later else if j == first then here else inner)

  unfoldable pub crossing_bytes : List (CacheLatencyPoint F) → ℕ → ℕ → F → Option ℕ
  unfolding crossing_from
  crossing_bytes points first last target =
      crossing_from points first target (last + 1 - first) first

  -- transition_width, with the two crossings that it sets.
  unfoldable pub transition_width :
      List (CacheLatencyPoint F) → Plateau F → Plateau F → Option (F × ℕ × ℕ)
  unfolding crossing_bytes
  transition_width points below above = do
    let log_low = mf.log below.latency_ns
    let climb = mf.minus (mf.log above.latency_ns) log_low
    begin ←
        crossing_bytes points below.first above.last
          (mf.exp (fl.plus log_low (fl.times (fl.decimal 1 1) climb)))
    end ←
        crossing_bytes points below.first above.last
          (mf.exp (fl.plus log_low (fl.times (fl.decimal 9 1) climb)))
    let width =
        if begin == 0 || end == 0
        then fl.literal 1
        else fl.divide (fl.literal end) (fl.literal begin)
    some (width, begin, end)

  -- The loop over the points between two plateaus: the last one below the threshold.
  unfoldable pub capacity_index : List (CacheLatencyPoint F) → F → ℕ → ℕ → ℕ → Option ℕ
  capacity_index points threshold zero j index = some index
  capacity_index points threshold (suc rounds) j index =
      let later = capacity_index points threshold rounds (suc j) j in
      (do
        point ← get_elem? points j
        if fl.less point.latency_ns threshold then later else some index)

  unfoldable pub is_memory : F → Plateau F → Bool
  is_memory memory_latency_ns plateau =
      fl.less (fl.literal 0) memory_latency_ns
      && at_most fl (fl.times (fl.decimal 5 1) memory_latency_ns) plateau.latency_ns

  -- Two plateaus that are no step of the hierarchy.
  unfoldable pub is_drift : Plateau F → Plateau F → Bool
  is_drift below above =
      fl.less above.latency_ns (fl.times below.latency_ns (fl.decimal 175 2))
      || fl.less (mf.minus above.latency_ns below.latency_ns) (fl.decimal 20 2)

  -- The estimate for a step, behind `count` others.
  unfoldable pub level_at :
      List (CacheLatencyPoint F) → ℕ → Plateau F → Plateau F → Option (CacheLevelEstimate F)
  unfolding transition_width capacity_index
  level_at points count below above = do
    let threshold = mf.cbrt (fl.times (fl.times below.latency_ns below.latency_ns) above.latency_ns)
    index ← capacity_index points threshold (above.first - below.last) below.last below.last
    first ← get_elem? points below.first
    last ← get_elem? points below.last
    capacity ← get_elem? points index
    (width, begin, end) ← transition_width points below above
    some (record {
      level = codes "L" ++ to_string (count + 1);
      capacity_bytes = capacity.working_set_bytes;
      latency_ns = below.latency_ns;
      latency_cycles = below.latency_cycles;
      jump_ratio = fl.divide above.latency_ns below.latency_ns;
      rise_begin_bytes = begin;
      rise_end_bytes = end;
      transition_width = width;
      plateau_drift =
          if fl.less (fl.literal 0) first.latency_ns
          then fl.divide last.latency_ns first.latency_ns
          else fl.literal 1;
    })

  -- The loop over neighbouring plateaus, behind `count` levels: the levels, and whether memory was
  -- reached.
  unfoldable pub levels_from :
      List (CacheLatencyPoint F)
      → F
      → ℕ
      → List (Plateau F)
      → Option (List (CacheLevelEstimate F) × Bool)
  unfolding level_at is_memory is_drift
  levels_from points memory_latency_ns count [] = some ([], false)
  levels_from points memory_latency_ns count (below ∷ []) = some ([], false)
  levels_from points memory_latency_ns count (below ∷ above ∷ plateaus) =
      let same = levels_from points memory_latency_ns count (above ∷ plateaus) in
      let more = levels_from points memory_latency_ns (count + 1) (above ∷ plateaus) in
      if is_memory memory_latency_ns below
      then some ([], false)
      else if is_drift below above
      then same
      else (do
        level ← level_at points count below above
        (levels, reached) ← more
        some (level ∷ levels, is_memory memory_latency_ns above || reached))

  unfoldable pub estimate_cache_levels :
      List (CacheLatencyPoint F) → F → Option (List (CacheLevelEstimate F) × Bool)
  unfolding levels_from
  estimate_cache_levels points memory_latency_ns = do
    plateaus ← find_plateaus fl mf points
    levels_from points memory_latency_ns 0 plateaus
