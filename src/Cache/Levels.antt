-- ===== src/Cache/Levels.antt =====
-- common/cache/cache_topology.hpp and .cpp: the caches that an operating system lists, and the ones
-- that are chosen from them. The list itself is an argument.
use cpufb.Base.{
  ℕ, List, [], ◌∷◌, Bool, true, false, not, ◌&&◌, ◌||◌, Bytes, ltb, leb, ◌==◌, if◌then◌else◌,
}

pub record CacheLevelInfo : Type 0 where
  pub bytes : ℕ
  pub level : ℕ
  pub source : Bytes
  pub line_bytes : ℕ
  pub ways : ℕ
  pub shared_cpus : ℕ

pub record LastLevelCacheInfo : Type 0 where
  pub bytes : ℕ
  pub level : ℕ
  pub is_reported_llc : Bool
  pub source : Bytes

pub record LinuxCacheEntry : Type 0 where
  pub bytes : ℕ
  pub level : ℕ
  pub source : Bytes
  pub line_bytes : ℕ
  pub ways : ℕ
  pub shared_cpus : ℕ

abbrev pub no_level : CacheLevelInfo
no_level = record { bytes = 0; level = 0; source = []; line_bytes = 0; ways = 0; shared_cpus = 0 }

abbrev pub no_last_level : LastLevelCacheInfo
no_last_level = record { bytes = 0; level = 0; is_reported_llc = false; source = [] }

unfoldable pub consider_cache : LastLevelCacheInfo → ℕ → ℕ → Bool → Bytes → LastLevelCacheInfo
consider_cache best bytes level is_reported_llc source =
    if bytes == 0 || ltb level best.level || level == best.level && leb bytes best.bytes
    then best
    else record { bytes = bytes; level = level; is_reported_llc = is_reported_llc; source = source }

unfoldable pub consider_cache_level : CacheLevelInfo → ℕ → ℕ → Bytes → CacheLevelInfo
consider_cache_level best bytes level source =
    if bytes == 0 || leb bytes best.bytes
    then best
    else record best { bytes = bytes; level = level; source = source }

-- The body of the loop of detect_linux_data_cache_level.
unfoldable pub consider_entry : ℕ → CacheLevelInfo → LinuxCacheEntry → CacheLevelInfo
unfolding consider_cache_level
consider_entry level best entry =
    let chosen = consider_cache_level best entry.bytes entry.level entry.source in
    if not (entry.level == level) || leb entry.bytes best.bytes then best else record chosen {
      line_bytes = entry.line_bytes;
      ways = entry.ways;
      shared_cpus = entry.shared_cpus;
    }

unfoldable pub consider_entries : ℕ → CacheLevelInfo → List LinuxCacheEntry → CacheLevelInfo
unfolding consider_entry
consider_entries level best [] = best
consider_entries level best (entry ∷ entries) =
    consider_entries level (consider_entry level best entry) entries

unfoldable pub detect_linux_data_cache_level : List LinuxCacheEntry → ℕ → CacheLevelInfo
unfolding consider_entries
detect_linux_data_cache_level entries level =
    let best = consider_entries level no_level entries in if level == 0 then no_level else best

unfoldable pub consider_all : LastLevelCacheInfo → List LinuxCacheEntry → LastLevelCacheInfo
unfolding consider_cache
consider_all best [] = best
consider_all best (entry ∷ entries) =
    consider_all (consider_cache best entry.bytes entry.level true entry.source) entries

unfoldable pub detect_linux_last_level_cache : List LinuxCacheEntry → LastLevelCacheInfo
unfolding consider_all
detect_linux_last_level_cache entries = consider_all no_last_level entries
