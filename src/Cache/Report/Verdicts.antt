-- ===== src/Cache/Report/Verdicts.antt =====
-- common/cache/cache_topology.cpp: the verdicts that set a measured value beside the one that the operating system
-- reports.
use cpufb.Base.{
  ℕ, ◌*◌, [], ◌++◌, Bool, not, ◌&&◌, ◌||◌, Bytes, codes, leb, ◌==◌, if◌then◌else◌, u64,
}
use cpufb.Text.Decimal.{to_string}
use cpufb.Integers.{
  ℤ, pos, negsuc, from_int, above_zero, below_zero, int_eq, int_lt, int_to_string, to_double,
}
use cpufb.Doubles.{Doubles, at_most}
use cpufb.Cache.Sizes.{format_cache_capacity}
use cpufb.Cache.Levels.{CacheLevelInfo}

module _ {ℓ} {F : Type ℓ} (fl : Doubles F) where
  unfoldable pub describe_probe_agreement : F → F → F → Bytes
  describe_probe_agreement reported measured tolerance =
      let ratio = fl.divide measured reported in
      if at_most fl measured (fl.literal 0)
      then codes "probe: not observed"
      else if at_most fl reported (fl.literal 0)
      then codes "probe (no OS value)"
      else if fl.equal ratio (fl.literal 1)
      then codes "probe (agrees with OS)"
      else (if at_most fl ratio tolerance && at_most fl (fl.divide (fl.literal 1) tolerance) ratio
          then codes "probe (agrees with OS, "
          else codes "probe (DISAGREES with OS, ")
        ++ fl.fixed 2 ratio
        ++ codes "x)"

  unfoldable pub describe_l1_geometry : ℕ → ℤ → ℕ → Bytes
  unfolding describe_probe_agreement
  describe_l1_geometry reported_bytes ways way_bytes =
      let measured = u64 (from_int ways * way_bytes) in
      if not (above_zero ways) || way_bytes == 0
      then codes "probe: no set conflict observed (L1 not virtually indexed?)"
      else describe_probe_agreement (fl.literal reported_bytes) (fl.literal measured) (fl.literal 1)
        ++ codes "; "
        ++ int_to_string ways
        ++ codes " ways x "
        ++ format_cache_capacity way_bytes
        ++ codes " per way"

  unfoldable pub describe_l1_curve_check : ℤ → ℤ → ℕ → Bytes
  describe_l1_curve_check curve_kib ways way_bytes =
      let geometry_kib =
        fl.divide (fl.times (to_double fl ways) (fl.literal way_bytes)) (fl.literal 1024) in
      let ratio = fl.divide (to_double fl curve_kib) geometry_kib in
      let bound = fl.decimal 13 1 in
      if not (above_zero curve_kib) || not (above_zero ways) || way_bytes == 0
      then []
      else if at_most fl ratio bound && at_most fl (fl.divide (fl.literal 1) bound) ratio
      then []
      else codes "set conflicts put L1 at "
        ++ format_cache_capacity (u64 (from_int ways * way_bytes))
        ++ codes " ("
        ++ int_to_string ways
        ++ codes " ways x "
        ++ format_cache_capacity way_bytes
        ++ codes "), so this plateau is a prefetcher staying ahead of the chase past it"

unfoldable pub describe_shared_level : CacheLevelInfo → ℤ → Bytes
describe_shared_level os probe_kib =
    if leb os.shared_cpus 1
      || os.bytes == 0
      || not (above_zero probe_kib)
      || leb os.bytes (u64 (from_int probe_kib * 1024))
    then []
    else codes "the OS value is the whole cache shared by "
      ++ to_string os.shared_cpus
      ++ codes " CPUs; the probe measures what one core reaches"

unfoldable pub describe_l2_unmeasured : ℤ → Bytes
describe_l2_unmeasured status =
    if int_eq status (negsuc 1)
    then codes "not measured: the L2 conflict transition did not repeat on a second ring"
    else if below_zero status
    then codes "not measured: needs 2 MiB huge pages to place lines in one L2 set"
    else codes
        "not measured: lines sharing every physical bit below 21 never conflicted in L2, so its set index is hashed"

unfoldable pub describe_line_cross_check : ℤ → ℤ → Bytes
describe_line_cross_check reuse_line_bytes set_line_bytes =
    let set_text = int_to_string set_line_bytes in
    if not (above_zero set_line_bytes)
    then []
    else if int_eq reuse_line_bytes set_line_bytes
    then codes "set indexing agrees"
    else if int_lt set_line_bytes reuse_line_bytes
    then codes "set indexing changes every "
      ++ set_text
      ++ codes " B, so the line is between "
      ++ set_text
      ++ codes " and "
      ++ int_to_string reuse_line_bytes
      ++ codes " B: either the cache indexes "
      ++ set_text
      ++ codes " B sectors of the line, or a neighbour is fetched with it"
    else codes "set indexing gives " ++ set_text ++ codes " B"

-- Of the third level that the operating system reports.
unfoldable pub describe_deeper_line_sizes : CacheLevelInfo → ℤ → Bytes
describe_deeper_line_sizes l3 l2_line_bytes =
    if leb l3.line_bytes 0 || int_eq (pos l3.line_bytes) l2_line_bytes
    then []
    else codes "the OS reports "
      ++ to_string l3.line_bytes
      ++ codes " B lines at L3, which cannot be probed: a shared last level is hashed across slices"

unfoldable pub format_probed_l3 : ℤ → Bool → Bytes
format_probed_l3 l3_kib hierarchy_complete =
    if above_zero l3_kib
    then format_cache_capacity (u64 (from_int l3_kib * 1024))
    else if hierarchy_complete
    then codes "none (L2 is followed by memory)"
    else codes "not determined"
