-- ===== src/Cache/Report.antt =====
-- common/cache/cache_report.hpp and .cpp: the data of a cache report, and what is read from a latency curve
-- and from the operating system into it. The caches that the operating system reports for the CPU are a
-- function of the level.
pub mod Verdicts
pub mod Doubt
pub mod Rows
pub mod Names
pub mod Described
pub mod Deeper
pub mod Assigned
pub mod Reported
pub mod Tests
use cpufb.Base.{
  ℕ, ◌*◌, ◌/◌, List, [], ◌∷◌, ◌++◌, Bool, false, not, ◌&&◌, Bytes, codes, ltb, leb, ◌==◌,
  if◌then◌else◌, u64,
}
use cpufb.Text.Bytes.{is_empty, bytes_eq}
use cpufb.Text.Decimal.{to_string}
use cpufb.Integers.{ℤ, pos, negsuc, to_int, from_int, above_zero, int_to_string}
use cpufb.Doubles.{Doubles}
use cpufb.Cache.Sizes.{format_cache_capacity}
use cpufb.Cache.Levels.{CacheLevelInfo}
use cpufb.Cache.Curve.{Functions, CacheLatencyPoint, CacheLevelEstimate}
use cpufb.Cache.Report.Doubt.{CacheCurveResult, describe_transition, describe_prefetch_doubt}

pub record CacheData {ℓ} (F : Type ℓ) : Type ℓ where
  pub theory_L1 : ℤ
  pub theory_L2 : ℤ
  pub theory_L1_source : Bytes
  pub theory_L2_source : Bytes
  pub theory_way : ℤ
  pub theory_l2_way : ℤ
  pub theory_cacheline : ℤ
  pub theory_l2_line : ℤ
  pub curve : CacheCurveResult F
  pub test_L1 : ℤ
  pub test_L2 : ℤ
  pub test_L3 : ℤ
  pub test_L1_note : Bytes
  pub test_L2_note : Bytes
  pub test_L3_note : Bytes
  pub memory_latency_ns : F
  pub hierarchy_complete : Bool
  pub curve_trusted : Bool
  pub test_cacheline : ℤ
  pub test_way : ℤ
  pub test_way_bytes : ℕ
  pub test_line_from_sets : ℤ
  pub test_l2_way : ℤ
  pub test_l2_line : ℤ

unfoldable pub kib_of : ℕ → ℤ
kib_of bytes =
    let kib = bytes / 1024 in if leb 1024 bytes && leb kib 2147483647 then pos kib else pos 0

unfoldable pub kib_text : ℤ → Bytes
kib_text kib = if above_zero kib then int_to_string kib ++ codes " KiB" else codes "-"

unfoldable pub count_text : ℤ → Bytes
count_text value = if above_zero value then int_to_string value else codes "-"

unfoldable pub bytes_text : ℤ → Bytes
bytes_text bytes = if above_zero bytes then int_to_string bytes ++ codes " B" else codes "-"

unfoldable pub join_note : Bytes → Bytes → Bytes
join_note note more =
    if is_empty more then note else if is_empty note then more else note ++ codes "; " ++ more

module _ {ℓ} {F : Type ℓ} where
  -- What assign_curve sets before the loop, and behind it.
  unfoldable pub cleared : Bool → CacheData F → CacheData F
  cleared trusted report = record report {
    test_L1 = pos 0;
    test_L2 = pos 0;
    test_L3 = pos 0;
    test_L1_note = [];
    test_L2_note = [];
    test_L3_note = [];
    curve_trusted = trusted;
  }

  unfoldable pub concluded : CacheData F × Bytes → CacheData F
  unfolding join_note
  concluded (report, deeper_steps) =
      let stepped =
        join_note report.test_L3_note
          (codes "the curve also stepped at " ++ deeper_steps ++ codes " below this level") in
      record report {
        test_L3_note = if is_empty deeper_steps then report.test_L3_note else stepped;
        memory_latency_ns = report.curve.memory_latency_ns;
        hierarchy_complete = report.curve.reached_memory;
      }

module _ {ℓ} {F : Type ℓ} (fl : Doubles F) (mf : Functions F) where
  -- The body of the loop over the levels of the curve, on the data and `deeper_steps`.
  unfoldable pub assign_level :
      Bytes → CacheLevelEstimate F → CacheData F × Bytes → CacheData F × Bytes
  unfolding join_note
  assign_level doubt level (report, deeper_steps) =
      let size_kb = to_int (level.capacity_bytes / 1024) in
      let note = join_note (describe_transition fl level) doubt in
      let steps =
        deeper_steps
        ++ (if is_empty deeper_steps then [] else codes ", ")
        ++ format_cache_capacity (u64 (from_int report.test_L3 * 1024)) in
      if bytes_eq level.level (codes "L1")
      then (record report { test_L1 = size_kb; test_L1_note = note }, deeper_steps)
      else if bytes_eq level.level (codes "L2")
      then (record report { test_L2 = size_kb; test_L2_note = note }, deeper_steps)
      else (
        record report { test_L3 = size_kb; test_L3_note = note },
        if above_zero report.test_L3 then steps else deeper_steps,
      )

  unfoldable pub assign_levels :
      Bytes → List (CacheLevelEstimate F) → CacheData F × Bytes → CacheData F × Bytes
  unfolding assign_level
  assign_levels doubt [] state = state
  assign_levels doubt (level ∷ levels) state =
      assign_levels doubt levels (assign_level doubt level state)

  unfoldable pub assign_curve : CacheData F → CacheData F
  unfolding assign_levels cleared concluded
  assign_curve report =
      let doubt = describe_prefetch_doubt fl mf report.curve in
      concluded (assign_levels doubt report.curve.levels (cleared (is_empty doubt) report, []))

module _ {ℓ} {F : Type ℓ} (detect : ℕ → CacheLevelInfo) where
  -- The two ifs of read_reported_cache.
  unfoldable pub read_l1 : CacheLevelInfo → CacheData F → CacheData F
  unfolding kib_of
  read_l1 l1 report =
      if above_zero (kib_of l1.bytes)
      then record report { theory_L1 = kib_of l1.bytes; theory_L1_source = l1.source }
      else report

  unfoldable pub read_l2 : CacheLevelInfo → CacheData F → CacheData F
  unfolding kib_of
  read_l2 l2 report =
      if above_zero (kib_of l2.bytes)
      then record report { theory_L2 = kib_of l2.bytes; theory_L2_source = l2.source }
      else report

  unfoldable pub read_reported_cache : CacheData F → CacheData F
  unfolding read_l1 read_l2
  read_reported_cache report =
      let l1 = detect 1 in
      let l2 = detect 2 in
      record (read_l2 l2 (read_l1 l1 report)) {
        theory_way = pos l1.ways;
        theory_cacheline = pos l1.line_bytes;
        theory_l2_way = pos l2.ways;
        theory_l2_line = pos l2.line_bytes;
      }

  abbrev fallback_l1 : CacheData F → CacheData F
  fallback_l1 report =
      if not (above_zero report.theory_L1) && not (above_zero report.test_L1)
      then record report { theory_L1 = pos 64; theory_L1_source = codes "conservative fallback" }
      else report

  abbrev fallback_l2 : CacheData F → CacheData F
  fallback_l2 report =
      if not (above_zero report.theory_L2) && not (above_zero report.test_L2)
      then record report { theory_L2 = pos 1024; theory_L2_source = codes "conservative fallback" }
      else report

  unfoldable pub prepare_load_capacities : CacheData F → CacheData F
  unfolding read_reported_cache
  prepare_load_capacities report = fallback_l2 (fallback_l1 (read_reported_cache report))

unfoldable pub cache_report_last_level_bytes {ℓ} : {F : Type ℓ} → CacheData F → ℕ
cache_report_last_level_bytes report =
    if report.curve_trusted && above_zero report.test_L3
    then u64 (from_int report.test_L3 * 1024)
    else 0
