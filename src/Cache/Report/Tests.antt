-- ===== src/Cache/Report/Tests.antt =====
-- common/cache/cache_report.cpp and cache_topology.cpp: a curve of four levels, and some texts.
use cpufb.Base.{ℕ, ◌≡◌, refl, List, [], ◌∷◌, Option, none, some, Bool, true, false, codes}
use cpufb.Integers.{pos, negsuc, to_int, int_eq, above_zero}
use cpufb.Text.Bytes.{bytes_eq}
use cpufb.Text.Decimal.{to_string}
use cpufb.Cache.Levels.{no_level}
use cpufb.Cache.Curve.{CacheLatencyPoint, CacheLevelEstimate, find_plateaus}
use cpufb.Cache.Curve.Estimate.{estimate_cache_levels}
use cpufb.Cache.Curve.Tests.{whole, functions, point}
use cpufb.Cache.Report.Verdicts.{describe_l2_unmeasured}
use cpufb.Cache.Report.{CacheData, assign_curve, prepare_load_capacities, kib_of}

-- From 4 KiB on, in steps of two, three points at each of five latencies.
abbrev points : List (CacheLatencyPoint ℕ)
points =
    point 4096 1
    ∷ point 8192 1
    ∷ point 16384 1
    ∷ point 32768 3
    ∷ point 65536 3
    ∷ point 131072 3
    ∷ point 262144 9
    ∷ point 524288 9
    ∷ point 1048576 9
    ∷ point 2097152 27
    ∷ point 4194304 27
    ∷ point 8388608 27
    ∷ point 16777216 81
    ∷ point 33554432 81
    ∷ point 67108864 81
    ∷ []

abbrev levels_of : Option (List (CacheLevelEstimate ℕ) × Bool) → List (CacheLevelEstimate ℕ) × Bool
levels_of none = ([], false)
levels_of (some found) = found

found : List (CacheLevelEstimate ℕ) × Bool
unfolding estimate_cache_levels
found = levels_of (estimate_cache_levels whole functions points 100000)

-- A report of a curve, with nothing else in it.
abbrev pub report_of : List (CacheLevelEstimate ℕ) × Bool → CacheData ℕ
report_of found = record {
  theory_L1 = pos 0;
  theory_L2 = pos 0;
  theory_L1_source = [];
  theory_L2_source = [];
  theory_way = pos 0;
  theory_l2_way = pos 0;
  theory_cacheline = pos 0;
  theory_l2_line = pos 0;
  curve = record {
    points = points;
    remeasured = [];
    levels = found.0;
    memory_latency_ns = 100000;
    reached_memory = found.1;
    translation_mode = codes "huge pages";
  };
  test_L1 = pos 0;
  test_L2 = pos 0;
  test_L3 = pos 0;
  test_L1_note = [];
  test_L2_note = [];
  test_L3_note = [];
  memory_latency_ns = 0;
  hierarchy_complete = false;
  curve_trusted = true;
  test_cacheline = pos 0;
  test_way = pos 0;
  test_way_bytes = 0;
  test_line_from_sets = pos 0;
  test_l2_way = pos 0;
  test_l2_line = pos 0;
}

abbrev report : CacheData ℕ
report = report_of found

four_levels :
    estimate_cache_levels whole functions points 100000
    ≡ some (report.curve.levels, report.curve.reached_memory)
unfolding found estimate_cache_levels find_plateaus
four_levels = refl

deepest_level : (assign_curve whole functions report).test_L3 ≡ pos 8192
unfolding found estimate_cache_levels assign_curve find_plateaus bytes_eq to_string to_int
deepest_level = refl

-- A probe that did not repeat, and a system that reports nothing.
not_repeated :
    describe_l2_unmeasured (negsuc 1)
    ≡ codes "not measured: the L2 conflict transition did not repeat on a second ring"
unfolding describe_l2_unmeasured int_eq
not_repeated = refl

fallback : (prepare_load_capacities (λ level. no_level) report).theory_L2 ≡ pos 1024
unfolding prepare_load_capacities kib_of above_zero
fallback = refl
