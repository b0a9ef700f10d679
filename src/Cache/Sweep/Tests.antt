-- ===== src/Cache/Sweep/Tests.antt =====
-- common/cache/cache_curve.cpp: a sweep up to 4 MiB on a machine with four levels.
use cpufb.Base.{ℕ, ◌≡◌, ◌⊎◌, [], some, true, false, ltb, if◌then◌else◌, arith}
use cpufb.Integers.{pos}
use cpufb.Cache.Grid.{build_cache_curve_sizes}
use cpufb.Cache.Curve.Tests.{whole, functions}
use cpufb.Cache.Report.{CacheData, assign_curve}
use cpufb.Cache.Report.Doubt.{CacheCurveResult}
use cpufb.Cache.Report.Reported.{Reported}
use cpufb.Cache.Report.Tests.{report_of}
use cpufb.Cache.Sweep.{ChaseSample, measure_cache_curve}
use cpufb.Cache.Sweep.Swept.{worksets}
use cpufb.Cache.Sweep.Composed.{measure_cache_curve-Reported}

-- Four levels, up to 16 KiB, 64 KiB, 256 KiB and 1 MiB.
abbrev sample : ℕ → ℕ → ℕ → ChaseSample ℕ
sample size groups seed = record {
  ns =
      if ltb 1048576 size
      then 81000
      else if ltb 262144 size
      then 27000
      else if ltb 65536 size
      then 9000
      else if ltb 16384 size
      then 3000
      else 1000;
  cycles = 0;
}

abbrev report : CacheData ℕ
report = report_of ([], false)

measure_cache_curve-Reported_example :
    (curve : CacheCurveResult ℕ) × (measure_cache_curve whole functions sample false 4096 false 0
        (λ bytes. true)
        (λ bytes. 100000)
        true
        (pos 64)
        4194304
      ≡ some curve)
    × ((worksets curve.points ≡ []) ⊎ (worksets curve.points ≡ build_cache_curve_sizes 4194304))
    × Reported whole functions curve
        (assign_curve whole functions (record report { curve = curve }))
measure_cache_curve-Reported_example =
    measure_cache_curve-Reported whole functions sample false 4096 false 0 (λ bytes. true)
      (λ bytes. 100000) true (pos 64) 4194304 (omega arith) report
