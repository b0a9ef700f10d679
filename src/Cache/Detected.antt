-- ===== src/Cache/Detected.antt =====
-- common/cache/cache_topology.cpp: which cache is chosen from a list.
use cpufb.Base.{
  ℕ, ◌≡◌, ◌≤◌, ◌<◌, ◌⊎◌, inl, inr, refl, List, [], ◌∷◌, true, false, not, ◌&&◌, ◌||◌, ltb, leb,
  ◌==◌, All, arith, Bool-cases,
}
use cpufb.Cache.Levels.{
  CacheLevelInfo, LastLevelCacheInfo, LinuxCacheEntry, no_level, no_last_level, consider_cache,
  consider_cache_level, consider_entry, consider_entries, detect_linux_data_cache_level,
  consider_all, detect_linux_last_level_cache,
}

-- The entry is no better than the cache: it is empty, nearer to the core, or no larger.
abbrev pub NoBetter : LastLevelCacheInfo → LinuxCacheEntry → Type 0
NoBetter best entry =
    (entry.bytes ≡ 0)
    ⊎ ((entry.level < best.level) ⊎ ((entry.level ≡ best.level) × (entry.bytes ≤ best.bytes)))

-- The cache is as good as another one.
AtLeast : LastLevelCacheInfo → LastLevelCacheInfo → Type 0
AtLeast best old = (old.level < best.level) ⊎ ((old.level ≡ best.level) × (old.bytes ≤ best.bytes))

consider_all-AtLeast :
    (best : LastLevelCacheInfo) (entries : List LinuxCacheEntry)
    → AtLeast (consider_all best entries) best
unfolding consider_all AtLeast consider_cache
consider_all-AtLeast best [] = inr (refl, omega arith)
consider_all-AtLeast best (entry ∷ entries) = ground (
  arith,
  consider_all-AtLeast (consider_cache best entry.bytes entry.level true entry.source) entries,
)

consider_all-NoBetter :
    (best : LastLevelCacheInfo) (entries : List LinuxCacheEntry)
    → All (NoBetter (consider_all best entries)) entries
unfolding consider_all AtLeast consider_cache
consider_all-NoBetter best [] = tt
consider_all-NoBetter best (entry ∷ entries) =
    let next = consider_cache best entry.bytes entry.level true entry.source in
    (ground (arith, consider_all-AtLeast next entries), consider_all-NoBetter next entries)

-- The entry that a cache was taken from, if it was taken from one.
pub Member : LinuxCacheEntry → List LinuxCacheEntry → Type 0
Member entry [] = ⊥
Member entry (e ∷ entries) = (entry ≡ e) ⊎ Member entry entries

pub From : LastLevelCacheInfo → LinuxCacheEntry → Type 0
From best entry =
    (best.bytes ≡ entry.bytes)
    × (best.level ≡ entry.level)
    × (best.source ≡ entry.source)
    × (0 < entry.bytes)

consider_all-From :
    (best : LastLevelCacheInfo) (entries : List LinuxCacheEntry)
    → (consider_all best entries ≡ best)
      ⊎ ((entry : LinuxCacheEntry) × Member entry entries × From (consider_all best entries) entry)
unfolding consider_all consider_cache Member From
consider_all-From best [] = inl refl
consider_all-From best (entry ∷ entries) =
    let next = consider_cache best entry.bytes entry.level true entry.source in
    elim (consider_all-From next entries) [
      | inl e ↦
          elim (Bool-cases (
            entry.bytes == 0
            || ltb entry.level best.level
            || entry.level == best.level && leb entry.bytes best.bytes)) [
              | inl h ↦ inl (ground (arith, e))
              | inr h ↦ inr (entry, inl refl, ground (arith, e))
            ]
      | inr (found, m, f) ↦ inr (found, inr m, f)
    ]

-- The chosen cache is an entry of the list, with its size and level, or none where every entry is
-- empty; no entry is farther from the core, or larger at the same level.
pub detect_linux_last_level_cache-NoBetter :
    (entries : List LinuxCacheEntry)
    → All (NoBetter (detect_linux_last_level_cache entries)) entries
      × ((detect_linux_last_level_cache entries ≡ no_last_level)
          ⊎ ((entry : LinuxCacheEntry) × Member entry entries
              × From (detect_linux_last_level_cache entries) entry))
unfolding detect_linux_last_level_cache
detect_linux_last_level_cache-NoBetter entries =
    (consider_all-NoBetter no_last_level entries, consider_all-From no_last_level entries)

-- The entry is at another level, or no larger.
abbrev pub NoLarger : ℕ → CacheLevelInfo → LinuxCacheEntry → Type 0
NoLarger level best entry = entry.level ≡ level → entry.bytes ≤ best.bytes

consider_entries-grows :
    (level : ℕ) (best : CacheLevelInfo) (entries : List LinuxCacheEntry)
    → best.bytes ≤ (consider_entries level best entries).bytes
unfolding consider_entries consider_entry consider_cache_level
consider_entries-grows level best [] = omega arith
consider_entries-grows level best (entry ∷ entries) =
    ground (arith, consider_entries-grows level (consider_entry level best entry) entries)

consider_entries-NoLarger :
    (level : ℕ) (best : CacheLevelInfo) (entries : List LinuxCacheEntry)
    → All (NoLarger level (consider_entries level best entries)) entries
unfolding consider_entries consider_entry consider_cache_level
consider_entries-NoLarger level best [] = tt
consider_entries-NoLarger level best (entry ∷ entries) =
    let next = consider_entry level best entry in
    (
      λ h. ground (arith, consider_entries-grows level next entries),
      consider_entries-NoLarger level next entries,
    )

-- The cache has every field of an entry at the level.
pub FromEntry : ℕ → CacheLevelInfo → LinuxCacheEntry → Type 0
FromEntry level best entry =
    (best.bytes ≡ entry.bytes)
    × (best.level ≡ level)
    × (entry.level ≡ level)
    × (best.source ≡ entry.source)
    × (best.line_bytes ≡ entry.line_bytes)
    × (best.ways ≡ entry.ways)
    × (best.shared_cpus ≡ entry.shared_cpus)

consider_entries-FromEntry :
    (level : ℕ) (best : CacheLevelInfo) (entries : List LinuxCacheEntry)
    → (consider_entries level best entries ≡ best)
      ⊎ ((entry : LinuxCacheEntry) × Member entry entries
          × FromEntry level (consider_entries level best entries) entry)
unfolding consider_entries consider_entry consider_cache_level Member FromEntry
consider_entries-FromEntry level best [] = inl refl
consider_entries-FromEntry level best (entry ∷ entries) =
    let next = consider_entry level best entry in
    elim (consider_entries-FromEntry level next entries) [
      | inl e ↦ elim (Bool-cases (not (entry.level == level) || leb entry.bytes best.bytes)) [
        | inl h ↦ inl (ground (arith, e))
        | inr h ↦ inr (entry, inl refl, ground (arith, e))
      ]
      | inr (found, m, f) ↦ inr (found, inr m, f)
    ]

-- At a level the largest entry is chosen, with all that is known of it, if there is one.
pub detect_linux_data_cache_level-NoLarger :
    (entries : List LinuxCacheEntry) (level : ℕ)
    → 0 < level
    → All (NoLarger level (detect_linux_data_cache_level entries level)) entries
      × ((detect_linux_data_cache_level entries level ≡ no_level)
          ⊎ ((entry : LinuxCacheEntry) × Member entry entries
              × FromEntry level (detect_linux_data_cache_level entries level) entry))
unfolding detect_linux_data_cache_level
detect_linux_data_cache_level-NoLarger entries level p =
    let positive : (level == 0) ≡ false = ground arith in
    rw positive (
      consider_entries-NoLarger level no_level entries,
      consider_entries-FromEntry level no_level entries,
    )
