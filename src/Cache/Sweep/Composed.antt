-- ===== src/Cache/Sweep/Composed.antt =====
-- common/cache/cache_curve.cpp and cache_report.cpp: the report of the curve that measure_cache_curve gives.
use cpufb.Base.{
  ℕ, zero, suc, ◌*◌, ◌/◌, ◌%◌, ◌^◌, ◌≡◌, ◌≤◌, ◌<◌, refl, sym, ap, ◌∙◌, List, [], ◌∷◌, Option, some,
  Bool, true, false, not, ◌&&◌, ◌||◌, Bytes, codes, ltb, leb, ◌⊎◌, inl, inr, if◌then◌else◌, arith,
  length, u64, All, Bool-cases,
}
use cpufb.Doubles.{Doubles}
use cpufb.Integers.{ℤ}
use cpufb.Cache.Grid.{put, sizes_from, build_cache_curve_sizes, build_cache_curve_sizes-Ascends}
use cpufb.Cache.Region.{choose_region_bytes}
use cpufb.Cache.Curve.{Functions, CacheLatencyPoint, never_reached_memory, find_plateaus}
use cpufb.Cache.Curve.Estimate.{estimate_cache_levels, levels_from}
use cpufb.Cache.Curve.Ordered.{estimate_cache_levels-Estimated}
use cpufb.Cache.Curve.Steady.{length-map}
use cpufb.Cache.Report.{CacheData, assign_curve}
use cpufb.Cache.Report.Doubt.{CacheCurveResult}
use cpufb.Cache.Report.Names.{Whole}
use cpufb.Cache.Report.Reported.{Reported, assign_curve-Reported}
use cpufb.Cache.Sweep.{
  ChaseSample, sweep, decisive_samples, unmeasured, measured_curve, measure_cache_curve,
}
use cpufb.Cache.Sweep.Swept.{worksets, length-decisive_samples, worksets-sweep, remeasure_from-some}

abbrev Kib : ℕ → Type 0
Kib size = (size % 1024 ≡ 0) × (0 < size)

put-Kib :
    (max_bytes size : ℕ) (rest : List ℕ)
    → Kib size
    → All Kib rest
    → All Kib (put max_bytes size rest)
unfolding put
put-Kib max_bytes size rest k a = elim (Bool-cases (leb size max_bytes)) [
  | inl e ↦ rw e (k, a)
  | inr e ↦ rw e a
]

sizes_from-Kib :
    (max_bytes fuel base : ℕ)
    → max_bytes < 2 ^ 63
    → base % 4096 ≡ 0
    → 0 < base
    → base < 2 ^ 64
    → All Kib (sizes_from fuel base max_bytes)
unfolding sizes_from
sizes_from-Kib max_bytes zero base small m p h = tt
sizes_from-Kib max_bytes (suc fuel) base small m p h = elim (Bool-cases (leb base max_bytes)) [
  | inr e ↦ rw e tt
  | inl e ↦
      let fits : base ≤ max_bytes = ground arith in
      let double : u64 (base * 2) ≡ base * 2 = omega (arith, fits, small) in
      let rest =
        sizes_from-Kib max_bytes fuel (base * 2) small (omega (arith, m)) (omega (arith, p))
          (omega (arith, fits, small)) in
      let q = base / 4 in
      rw (e, double)
        (put-Kib max_bytes (q * 4) _ (omega (arith, m), omega (arith, m, p))
          (put-Kib max_bytes (q * 5) _ (omega (arith, m), omega (arith, m, p))
            (put-Kib max_bytes (q * 6) _ (omega (arith, m), omega (arith, m, p))
              (put-Kib max_bytes (q * 7) _ (omega (arith, m), omega (arith, m, p)) rest))))
]

both-Whole :
    (max_bytes : ℕ) (sizes : List ℕ)
    → max_bytes < 2 ^ 41
    → All Kib sizes
    → All (λ size. size ≤ max_bytes) sizes
    → All Whole sizes
both-Whole max_bytes [] h a b = tt
both-Whole max_bytes (size ∷ sizes) h a b = (
  (size / 1024, omega (arith, a.0), omega (arith, a.0), omega (arith, b.0, h)),
  both-Whole max_bytes sizes h a.1 b.1,
)

sizes-Whole : (max_bytes : ℕ) → max_bytes < 2 ^ 41 → All Whole (build_cache_curve_sizes max_bytes)
sizes-Whole max_bytes h =
    let a = build_cache_curve_sizes-Ascends max_bytes (omega (arith, h)) in
    both-Whole max_bytes _ h
      (unfold build_cache_curve_sizes in
        sizes_from-Kib max_bytes 64 4096 (omega (arith, h)) refl (omega arith) (omega arith))
      a.1

points-Whole {ℓ} :
    {F : Type ℓ} (points : List (CacheLatencyPoint F))
    → All Whole (worksets points)
    → All (λ p. Whole p.working_set_bytes) points
points-Whole [] a = tt
points-Whole (p ∷ points) a = (a.0, points-Whole points a.1)

module _ {ℓ} {F : Type ℓ} (fl : Doubles F) (mf : Functions F) where
  -- The result is there; its points are none, or those of all sizes; and its levels are the ones that
  -- are read from them.
  record Measured (max_bytes : ℕ) (o : Option (CacheCurveResult F)) : Type ℓ where
    result : CacheCurveResult F
    there : o ≡ some result
    sizes :
        (worksets result.points ≡ []) ⊎ (worksets result.points ≡ build_cache_curve_sizes max_bytes)
    estimated :
        estimate_cache_levels fl mf result.points result.memory_latency_ns
        ≡ some (result.levels, result.reached_memory)

  unmeasured-Measured :
      (max_bytes : ℕ) (mode : Bytes) → Measured max_bytes (some (unmeasured fl mf mode))
  unfolding unmeasured estimate_cache_levels find_plateaus levels_from
  unmeasured-Measured max_bytes mode = record {
    result = unmeasured fl mf mode;
    there = refl;
    sizes = inl refl;
    estimated = refl;
  }

  module _ (measure : ℕ → ℕ → ℕ → ChaseSample F) where
    either-worksets :
        (b : Bool) (m n : ℕ) (sizes : List ℕ)
        → worksets (if b then sweep fl mf measure m 0 sizes else sweep fl mf measure n 0 sizes)
          ≡ sizes
    either-worksets true m n sizes = worksets-sweep fl mf measure m 0 sizes
    either-worksets false m n sizes = worksets-sweep fl mf measure n 0 sizes

    measured_curve-Measured :
        (max_bytes group_lines : ℕ) (memory_latency_ns : F) (mode : Bytes)
        → Measured max_bytes (
            measured_curve fl mf measure
              (build_cache_curve_sizes max_bytes)
              group_lines
              memory_latency_ns
              mode)
    unfolding measured_curve
    measured_curve-Measured max_bytes group_lines memory mode =
        let sizes = build_cache_curve_sizes max_bytes in
        let swept = sweep fl mf measure group_lines 0 sizes in
        let global = ltb 0 group_lines && never_reached_memory fl swept memory in
        let groups = if global then 0 else group_lines in
        let points = if global then sweep fl mf measure 0 0 sizes else swept in
        let all : worksets points ≡ sizes = either-worksets global 0 group_lines sizes in
        let count : length sizes ≡ length points =
          ap length (sym all) ∙ length-map (λ p. p.working_set_bytes) points in
        let first = estimate_cache_levels-Estimated fl mf points memory in
        let flags = decisive_samples fl mf memory first.levels points (length sizes) in
        let (remeasured, there, same) =
          remeasure_from-some fl mf measure groups 0 sizes flags points count
            (length-decisive_samples fl mf memory first.levels points (length sizes) ∙ count) in
        let last = estimate_cache_levels-Estimated fl mf remeasured.0 memory in
        record {
          result = record {
            points = remeasured.0;
            remeasured = remeasured.1;
            levels = last.levels;
            memory_latency_ns = memory;
            reached_memory = last.reached_memory;
            translation_mode =
                if global
                then codes "global order (page-grouped order never reached memory)"
                else mode;
          };
          there = rw (first.found, there, last.found) refl;
          sizes = inr (same ∙ all);
          estimated = last.found;
        }

    module _ (huge_pages : Bool) (page_bytes : ℕ) (no_groups : Bool) (available : ℕ)
        (maps : ℕ → Bool) (memory_latency : ℕ → F) where
      measure_cache_curve-Measured :
          (has_chase : Bool) (line_size : ℤ) (max_bytes : ℕ)
          → Measured max_bytes (
              measure_cache_curve fl mf measure huge_pages page_bytes no_groups available maps
                memory_latency has_chase line_size max_bytes)
      unfolding measure_cache_curve
      measure_cache_curve-Measured has_chase line_size max_bytes =
          elim (Bool-cases (not has_chase || ltb max_bytes 8192)) [
            | inl e ↦ rw e (unmeasured-Measured max_bytes [])
            | inr e ↦ elim (Bool-cases (not (maps (choose_region_bytes available max_bytes)))) [
              | inl f ↦ rw (e, f) (unmeasured-Measured max_bytes _)
              | inr f ↦ rw (e, f) (measured_curve-Measured max_bytes _ _ _)
            ]
          ]

      -- For a bound below 2 TiB, and whatever the machine answers: measure_cache_curve gives a curve
      -- without a read out of bounds, with a point for each of the sizes or with none. In the report
      -- that assign_curve makes of it are the sizes and the notes of the first and the second of its
      -- levels and of the deepest one behind these, whose note names the capacities between. The curve
      -- is trusted exactly if nothing is said against it, and only then does
      -- cache_report_last_level_bytes give the bytes of this deepest level.
      pub measure_cache_curve-Reported :
          (has_chase : Bool) (line_size : ℤ) (max_bytes : ℕ)
          → max_bytes < 2 ^ 41
          → (report : CacheData F)
          → (curve : CacheCurveResult F) × (measure_cache_curve fl mf measure huge_pages page_bytes
                no_groups available maps memory_latency has_chase line_size max_bytes
              ≡ some curve)
            × ((worksets curve.points ≡ [])
                ⊎ (worksets curve.points ≡ build_cache_curve_sizes max_bytes))
            × Reported fl mf curve (assign_curve fl mf (record report { curve = curve }))
      measure_cache_curve-Reported has_chase line_size max_bytes small report =
          let m = measure_cache_curve-Measured has_chase line_size max_bytes in
          let whole : All Whole (worksets m.result.points) = elim m.sizes [
            | inl e ↦ rw e tt
            | inr e ↦ rw e (sizes-Whole max_bytes small)
          ] in
          (
            m.result,
            m.there,
            m.sizes,
            assign_curve-Reported fl mf (record report { curve = m.result })
                (points-Whole m.result.points whole) m.estimated,
          )
