-- ===== src/Cache/Sweep.antt =====
-- common/cache/cache_curve.cpp: measure_cache_curve, the sweep and the samples that it repeats. What a chase
-- measures is a function of the working set, the lines in a group and the seed, which differ from call to
-- call. `none` is a read out of bounds.
pub mod Swept
pub mod Composed
pub mod Tests
use cpufb.Base.{
  ℕ, zero, suc, ◌+◌, ◌-◌, ◌*◌, List, [], ◌∷◌, ◌++◌, Option, none, some, Bool, true, false, not,
  ◌&&◌, ◌||◌, Bytes, codes, ltb, leb, ◌==◌, if◌then◌else◌, ◌>>=◌, u64, get_elem?, length, replicate,
}
use cpufb.Doubles.{Doubles, at_most}
use cpufb.Integers.{ℤ, from_int, above_zero}
use cpufb.Cache.Grid.{build_cache_curve_sizes}
use cpufb.Cache.Region.{choose_region_bytes, ring_group_lines}
use cpufb.Cache.Curve.{Functions, CacheLatencyPoint, CacheLevelEstimate, never_reached_memory}
use cpufb.Cache.Curve.Estimate.{estimate_cache_levels}
use cpufb.Cache.Report.Doubt.{RemeasuredPoint, CacheCurveResult}

pub record ChaseSample {ℓ} (F : Type ℓ) : Type ℓ where
  pub ns : F
  pub cycles : F

unfoldable pub seed_for : ℕ → ℕ → ℕ
seed_for i ring =
    u64 (289110574658 + u64 (i * 11400714819323198485) + u64 (ring * 15111065706836454659))

-- An assignment of `true` to the flags from `low` to `high`, where `i` flags stand before these.
unfoldable pub mark : ℕ → ℕ → ℕ → List Bool → List Bool
mark low high i [] = []
mark low high i (flag ∷ flags) = (flag || (leb low i && leb i high)) ∷ mark low high (suc i) flags

module _ {ℓ} {F : Type ℓ} where
  -- The loop over the points for a level, behind `i` points.
  unfoldable pub mark_level : ℕ → ℕ → List (CacheLatencyPoint F) → List Bool → List Bool
  unfolding mark
  mark_level capacity i [] flags = flags
  mark_level capacity i (point ∷ points) flags =
      let marked = mark (i - 1) (i + 2) 0 flags in
      mark_level capacity (suc i) points
        (if point.working_set_bytes == capacity then marked else flags)

  unfoldable pub mark_levels :
      List (CacheLevelEstimate F) → List (CacheLatencyPoint F) → List Bool → List Bool
  unfolding mark_level
  mark_levels [] points flags = flags
  mark_levels (level ∷ levels) points flags =
      mark_levels levels points (mark_level level.capacity_bytes 0 points flags)

module _ {ℓ} {F : Type ℓ} (fl : Doubles F) (mf : Functions F) where
  -- Whether a latency falls below the floor to the next one.
  unfoldable pub drops : F → F → F → Bool
  drops floor_ns before after =
      fl.less (fl.literal 0) before
      && fl.less before floor_ns
      && at_most fl (fl.decimal 5 1) (mf.minus before after)
      && at_most fl after (fl.times before (mf.minus (fl.literal 1) (fl.decimal 10 2)))

  -- The loop over neighbouring points, the second of which is number `i`.
  unfoldable pub mark_falls : F → ℕ → List (CacheLatencyPoint F) → List Bool → List Bool
  unfolding drops mark
  mark_falls floor_ns i [] flags = flags
  mark_falls floor_ns i (here ∷ []) flags = flags
  mark_falls floor_ns i (here ∷ next ∷ points) flags =
      let marked = mark (i - 1) i 0 flags in
      mark_falls floor_ns (suc i) (next ∷ points)
        (if drops floor_ns here.latency_ns next.latency_ns then marked else flags)

  -- `std::sort` of samples by their time.
  unfoldable pub put_by_time : ChaseSample F → List (ChaseSample F) → List (ChaseSample F)
  put_by_time x [] = x ∷ []
  put_by_time x (y ∷ ys) =
      let rest = put_by_time x ys in if fl.less y.ns x.ns then y ∷ rest else x ∷ y ∷ ys

  unfoldable pub middle_of : ChaseSample F → ChaseSample F → ChaseSample F → Option (ChaseSample F)
  unfolding put_by_time
  middle_of a b c = get_elem? (put_by_time a (put_by_time b (put_by_time c []))) 1

  module _ (measure : ℕ → ℕ → ℕ → ChaseSample F) (groups : ℕ) where
    -- The sweep over the sizes behind `i` others.
    unfoldable pub sweep : ℕ → List ℕ → List (CacheLatencyPoint F)
    unfolding seed_for
    sweep i [] = []
    sweep i (size ∷ sizes) =
        let sample = measure size groups (seed_for i 0) in
        record { working_set_bytes = size; latency_ns = sample.ns; latency_cycles = sample.cycles }
        ∷ sweep (suc i) sizes

    unfoldable pub remeasure :
        ℕ → ℕ → CacheLatencyPoint F → Option (CacheLatencyPoint F × RemeasuredPoint F)
    unfolding seed_for middle_of
    remeasure i size point = do
      let first : ChaseSample F = record { ns = point.latency_ns; cycles = point.latency_cycles }
      let second = measure size groups (seed_for i 1)
      let third = measure size groups (seed_for i 2)
      middle ← middle_of first second third
      some (
        record point { latency_ns = middle.ns; latency_cycles = middle.cycles },
        record {
          working_set_bytes = size;
          samples_ns = (first.ns, second.ns, third.ns);
          samples_cycles = (first.cycles, second.cycles, third.cycles);
        },
      )

    -- The loop over the points behind `i` others.
    unfoldable pub remeasure_from :
        ℕ
        → List ℕ
        → List Bool
        → List (CacheLatencyPoint F)
        → Option (List (CacheLatencyPoint F) × List (RemeasuredPoint F))
    unfolding remeasure
    remeasure_from i sizes flags [] = some ([], [])
    remeasure_from i (size ∷ sizes) (flag ∷ flags) (point ∷ points) =
        let rest = remeasure_from (suc i) sizes flags points in
        (do
          (later, records) ← rest
          let kept = some (point ∷ later, records)
          let repeated = (do
            (again, record_) ← remeasure i size point
            some (again ∷ later, record_ ∷ records))
          if flag then repeated else kept)
    remeasure_from i sizes flags (point ∷ points) = none

  -- The samples that decide the answer.
  unfoldable pub decisive_samples :
      F → List (CacheLevelEstimate F) → List (CacheLatencyPoint F) → ℕ → List Bool
  unfolding mark_falls mark_levels
  decisive_samples memory_latency_ns first_levels points count =
      let floor_ns =
        if fl.less (fl.literal 0) memory_latency_ns
        then fl.times (fl.decimal 5 1) memory_latency_ns
        else fl.literal 0 in
      mark_falls floor_ns 1 points (mark_levels first_levels points (replicate count false))

  unfoldable pub mode_text : Bool → ℕ → Bytes
  mode_text huge_pages group_lines =
      if huge_pages
      then codes "huge pages"
      else if ltb 0 group_lines
      then codes "page-grouped order"
      else codes "large base pages"

  -- A result with nothing measured.
  unfoldable pub unmeasured : Bytes → CacheCurveResult F
  unmeasured mode = record {
    points = [];
    remeasured = [];
    levels = [];
    memory_latency_ns = fl.literal 0;
    reached_memory = false;
    translation_mode = mode;
  }

  module _ (measure : ℕ → ℕ → ℕ → ChaseSample F) where
    -- From the first sweep on.
    unfoldable pub measured_curve : List ℕ → ℕ → F → Bytes → Option (CacheCurveResult F)
    unfolding sweep remeasure_from decisive_samples
    measured_curve sizes group_lines memory_latency_ns mode = do
      let swept = sweep measure group_lines 0 sizes
      let global = ltb 0 group_lines && never_reached_memory fl swept memory_latency_ns
      let groups = if global then 0 else group_lines
      let points = if global then sweep measure 0 0 sizes else swept
      first_levels ← estimate_cache_levels fl mf points memory_latency_ns
      let flags = decisive_samples memory_latency_ns first_levels.0 points (length sizes)
      remeasured ← remeasure_from measure groups 0 sizes flags points
      levels ← estimate_cache_levels fl mf remeasured.0 memory_latency_ns
      some (record {
        points = remeasured.0;
        remeasured = remeasured.1;
        levels = levels.0;
        memory_latency_ns = memory_latency_ns;
        reached_memory = levels.1;
        translation_mode =
            if global then codes "global order (page-grouped order never reached memory)" else mode;
      })

    -- What the machine answers: whether huge pages are there, the size of a page, whether the
    -- environment forbids groups, the free memory, whether a region is mapped, and the latency that
    -- measure_memory_latency finds in one.
    module _ (huge_pages : Bool) (page_bytes : ℕ) (no_groups : Bool) (available : ℕ)
        (maps : ℕ → Bool) (memory_latency : ℕ → F) where
      -- `has_chase` is that there is a kernel.
      unfoldable pub measure_cache_curve : Bool → ℤ → ℕ → Option (CacheCurveResult F)
      unfolding measured_curve unmeasured mode_text
      measure_cache_curve has_chase line_size max_bytes =
          let line = if above_zero line_size then from_int line_size else 64 in
          let group_lines = ring_group_lines page_bytes no_groups line huge_pages in
          let mode = mode_text huge_pages group_lines in
          let region_bytes = choose_region_bytes available max_bytes in
          let memory_latency_ns =
            if leb (u64 (max_bytes * 2)) region_bytes
            then memory_latency region_bytes
            else fl.literal 0 in
          if not has_chase || ltb max_bytes (8 * 1024)
          then some (unmeasured [])
          else if not (maps region_bytes)
          then some (unmeasured mode)
          else measured_curve (build_cache_curve_sizes max_bytes) group_lines memory_latency_ns mode
