-- ===== src/Cache/Tests.antt =====
-- Runs of the definitions on sizes, levels and lists of caches.
use cpufb.Base.{
  inr, ◌/◌, ◌≤◌, ◌+◌, suc, ◌≡◌, refl, ◌⊎◌, ◌||◌, ◌*◌, ℕ, List, [], ◌∷◌, ◌++◌, some, none, codes,
  arith, All, max_u64, max, min, ltb, ◌==◌, if◌then◌else◌,
}
use mathlib.Core.List.{cons-ne-nil}
use mathlib.Core.List.{Perm, reverse, reverse_perm}
use cpufb.Cache.Grid.{
  put, sizes_from, build_cache_curve_sizes, Ascends, build_cache_curve_sizes-Ascends,
}
use cpufb.Cache.Region.{
  memory_reference_bytes, choose_from, choose_region_bytes, choose_region_bytes-max,
}
use cpufb.Cache.Ring.{iota, build_ring_order}
use cpufb.Cache.Cycle.{build_ring_order-Perm}
use cpufb.Text.Decimal.{value}
use cpufb.Cache.Sizes.{
  kib, mib, gib, parse_cache_size, format_cache_capacity, recommended_stream_workset_bytes,
  minimum_stream_workset, cache_multiplier,
}
use cpufb.Cache.Capacity.{unit_b, small_m, parse_cache_size-Suffix}
use cpufb.Cache.Formats.{
  Capacity, format_cache_capacity-Capacity, recommended_stream_workset_bytes-max,
}
use cpufb.Cache.Chase.{slots_for, lines_of, words_of, fill_ring}
use cpufb.Cache.Chase.Ring.{IsRing, fill_ring-IsRing}
use cpufb.Cache.Levels.{
  LinuxCacheEntry, no_level, no_last_level, detect_linux_data_cache_level,
  detect_linux_last_level_cache,
}
use cpufb.Cache.Detected.{
  NoBetter, NoLarger, Member, From, FromEntry, detect_linux_last_level_cache-NoBetter,
  detect_linux_data_cache_level-NoLarger,
}

parse_cache_size-Suffix_example : parse_cache_size (codes "48" ++ codes "mB") ≡ (
    if value 0 (codes "48") == 0 || ltb max_u64 (value 0 (codes "48") * (1024 * 1024))
    then none
    else some (value 0 (codes "48") * (1024 * 1024)))
parse_cache_size-Suffix_example =
    parse_cache_size-Suffix (codes "48") (codes "mB") (1024 * 1024) (cons-ne-nil _ _)
      ((omega arith, omega arith), ((omega arith, omega arith), tt))
      (unit_b b'm' b'B' (1024 * 1024) small_m (inr refl))

format_cache_capacity-Capacity_example : Capacity 49152 (format_cache_capacity 49152)
format_cache_capacity-Capacity_example = format_cache_capacity-Capacity 49152

recommended_stream_workset_bytes-max_example :
    recommended_stream_workset_bytes gib
    ≡ max minimum_stream_workset (min (gib * cache_multiplier) max_u64)
recommended_stream_workset_bytes-max_example = recommended_stream_workset_bytes-max gib

abbrev entry : ℕ → ℕ → LinuxCacheEntry
entry bytes level = record {
  bytes = bytes;
  level = level;
  source = codes "sysfs";
  line_bytes = 64;
  ways = 8;
  shared_cpus = 2;
}

abbrev entries : List LinuxCacheEntry
entries = entry (32 * kib) 1 ∷ entry (2 * mib) 2 ∷ entry (32 * mib) 3 ∷ entry mib 2 ∷ []

detect_linux_last_level_cache-NoBetter_example :
    All (NoBetter (detect_linux_last_level_cache entries)) entries
    × ((detect_linux_last_level_cache entries ≡ no_last_level)
        ⊎ ((e : LinuxCacheEntry) × Member e entries
            × From (detect_linux_last_level_cache entries) e))
detect_linux_last_level_cache-NoBetter_example = detect_linux_last_level_cache-NoBetter entries

detect_linux_data_cache_level-NoLarger_example :
    All (NoLarger 2 (detect_linux_data_cache_level entries 2)) entries
    × ((detect_linux_data_cache_level entries 2 ≡ no_level)
        ⊎ ((e : LinuxCacheEntry) × Member e entries
            × FromEntry 2 (detect_linux_data_cache_level entries 2) e))
detect_linux_data_cache_level-NoLarger_example =
    detect_linux_data_cache_level-NoLarger entries 2 (omega arith)

-- A shuffle that reverses.
abbrev turn : ℕ → List ℕ → ℕ × List ℕ
turn random xs = (suc random, reverse xs)

turn-permutes : (random : ℕ) (xs : List ℕ) → Perm (turn random xs).1 xs
turn-permutes random xs = reverse_perm xs

turn_example : build_ring_order turn 5 2 0 ≡ 0 ∷ 4 ∷ 3 ∷ 2 ∷ 1 ∷ []
unfolding build_ring_order
turn_example = refl

build_ring_order-Perm_example :
    (rest : List ℕ) × (build_ring_order turn 5 2 0 ≡ 0 ∷ rest) × Perm (0 ∷ rest) (iota 0 5)
build_ring_order-Perm_example =
    build_ring_order-Perm turn turn-permutes 5 2 0 (omega arith) (omega arith)

sizes_example : build_cache_curve_sizes 9000 ≡ 4096 ∷ 5120 ∷ 6144 ∷ 7168 ∷ 8192 ∷ []
unfolding build_cache_curve_sizes put
sizes_example = refl

build_cache_curve_sizes-Ascends_example :
    Ascends 4096 (build_cache_curve_sizes 9000)
    × All (λ size. size ≤ 9000) (build_cache_curve_sizes 9000)
    × ((more : ℕ) → build_cache_curve_sizes 9000 ≡ sizes_from (64 + more) 4096 9000)
build_cache_curve_sizes-Ascends_example = build_cache_curve_sizes-Ascends 9000 (omega arith)

abbrev memory : ℕ
memory = 3000000000

choose_region_bytes-max_example :
    (134217728 ≤ choose_region_bytes memory 134217728)
    × ((choose_region_bytes memory 134217728 ≡ 134217728)
        ⊎ ((choose_region_bytes memory 134217728 ≤ memory_reference_bytes)
            × ((memory ≡ 0) ⊎ (choose_region_bytes memory 134217728 ≤ memory / 4))))
    × ((more : ℕ)
        → choose_from 32 memory 134217728 memory_reference_bytes
          ≡ choose_from (32 + more) memory 134217728 memory_reference_bytes)
choose_region_bytes-max_example = choose_region_bytes-max memory 134217728 (omega arith)

region_example : choose_region_bytes memory 134217728 ≡ 536870912
unfolding choose_region_bytes choose_from
region_example = refl

-- 4 lines of 64 bytes, and 16 slots.
fill_ring-IsRing_example :
    IsRing
      (lines_of 256 64)
      (words_of 64)
      (slots_for (words_of 64))
      (fill_ring turn (λ seed. seed) 256 64 0 7 (λ i. 0))
fill_ring-IsRing_example =
    fill_ring-IsRing turn (λ seed. seed) turn-permutes 256 64 0 7 (λ i. 0) (omega arith)
      (omega arith)
