-- ===== src/Cli/Migration.antt =====
-- common/cli.cpp: record_migration_information, on the entries of common/sys/system_info.hpp.
use cpufb.Base.{
  ◌^◌, length, ℕ, ◌≡◌, List, [], ◌∷◌, ◌++◌, Option, none, some, Bool, true, false, not, ◌||◌, Bytes,
  codes, if◌then◌else◌, ◌==◌, arith, ◌↔◌, ◌⊎◌, ◌<◌,
}
use cpufb.ThreadPool.Machine.{Pool}
use cpufb.ThreadPool.Client.{System, create, Reach}
use cpufb.ThreadPool.Counters.{seen, Somewhere, Reach-strays}
use cpufb.Text.Bytes.{bytes_eq}
use cpufb.Text.Decimal.{to_string}

pub record SystemInfoEntry : Type 0 where
  pub item : Bytes
  pub value : Bytes
  pub source : Bytes

-- tpool_migration_info.
pub record MigrationInfo : Type 0 where
  pub available : Bool
  pub observations : ℕ
  pub migrations : ℕ
  pub requested_cpu_mismatches : ℕ

abbrev pub core_migration : Bytes
core_migration = codes "Core Migration"

-- The value and the source that the entry is given; the text is that of the build for Linux.
unfoldable pub migration_source : MigrationInfo → Bytes
migration_source info =
    codes "sched_getcpu before/after "
    ++ to_string info.observations
    ++ codes " worker invocations; migrations="
    ++ to_string info.migrations
    ++ codes ", requested-core mismatches="
    ++ to_string info.requested_cpu_mismatches

unfoldable pub migrated : MigrationInfo → Bool
migrated info = not (info.migrations == 0) || not (info.requested_cpu_mismatches == 0)

unfoldable pub verdict : MigrationInfo → Bytes × Bytes
unfolding migration_source migrated
verdict info =
    if not info.available
    then (codes "unavailable", codes "OS does not expose the executing CPU")
    else if info.observations == 0
    then (
      codes "not observed",
      codes
          "no benchmark in this run executed on the thread pool, which is where migrations are tracked",
    )
    else (if migrated info then codes "yes" else codes "no", migration_source info)

-- The first entry of that item is changed.
unfoldable pub set_entry : Bytes × Bytes → List SystemInfoEntry → List SystemInfoEntry
set_entry new [] = []
set_entry new (entry ∷ entries) =
    let rest = set_entry new entries in
    if bytes_eq entry.item core_migration
    then record entry { value = new.0; source = new.1 } ∷ entries
    else entry ∷ rest

unfoldable pub has_entry : List SystemInfoEntry → Bool
has_entry [] = false
has_entry (entry ∷ entries) = bytes_eq entry.item core_migration || has_entry entries

-- The line on `cout`, where there is an entry. `none` is a system that was not initialized.
unfoldable pub record_migration_information :
    Option (List SystemInfoEntry) → MigrationInfo → Option (List SystemInfoEntry) × List Bytes
unfolding verdict set_entry has_entry
record_migration_information none info = (none, [])
record_migration_information (some entries) info =
    let new = verdict info in
    if has_entry entries
    then (
      some (set_entry new entries),
      (codes "Core Migration: " ++ new.0 ++ codes " (" ++ new.1 ++ codes ")") ∷ [],
    )
    else (some entries, [])

-- The value of the first entry of that item.
unfoldable pub reported : List SystemInfoEntry → Option Bytes
reported [] = none
reported (entry ∷ entries) =
    let rest = reported entries in
    if bytes_eq entry.item core_migration then some entry.value else rest

reported-set_entry :
    (new : Bytes × Bytes) (entries : List SystemInfoEntry)
    → has_entry entries ≡ true
    → reported (set_entry new entries) ≡ some (new.0)
unfolding reported set_entry has_entry
reported-set_entry new [] h = cc
reported-set_entry new (entry ∷ entries) h = ground (arith, reported-set_entry new entries)

abbrev pub entries_of : Option (List SystemInfoEntry) → List SystemInfoEntry
entries_of none = []
entries_of (some entries) = entries

-- The report says "yes" exactly where the CPU could be read, a job was observed, and a worker
-- migrated or ran on another CPU than its own.
pub record_migration_information_yes :
    (entries : List SystemInfoEntry) (info : MigrationInfo)
    → has_entry entries ≡ true
    → (reported (entries_of (record_migration_information (some entries) info).0)
        ≡ some (codes "yes"))
      ↔ ((info.available ≡ true)
          × (0 < info.observations)
          × ((0 < info.migrations) ⊎ (0 < info.requested_cpu_mismatches)))
unfolding record_migration_information verdict migrated
record_migration_information_yes entries info h =
    ground (arith, reported-set_entry (verdict info) entries)

-- On Linux the executing CPU is available.
unfoldable pub tpool_get_migration_info : Pool → MigrationInfo
tpool_get_migration_info p = record {
  available = true;
  observations = p.cpu_observation_cnt;
  migrations = p.cpu_migration_cnt;
  requested_cpu_mismatches = p.cpu_mismatch_cnt;
}

-- Of a pool that was made by tpool_create, after a run in which fewer than 2^64 jobs and items are seen,
-- the report says "yes" exactly if some worker was seen on another CPU than its own, before or after a
-- job or an item.
pub record_migration_information-tpool_get_migration_info :
    (cpus : List ℕ) {s t : System}
    → create cpus ≡ some s
    → (r : Reach s t) → length (seen r) < 2 ^ 64
    → (entries : List SystemInfoEntry) → has_entry entries ≡ true
    → (reported (
          entries_of
            (record_migration_information (some entries) (tpool_get_migration_info t.pool)).0)
        ≡ some (codes "yes"))
      ↔ Somewhere (seen r)
unfolding tpool_get_migration_info
record_migration_information-tpool_get_migration_info cpus {t = t} c r bound entries h =
    let v = Reach-strays cpus c r bound in
    ground (
      arith,
      v.0,
      v.1,
      v.2,
      record_migration_information_yes entries (tpool_get_migration_info t.pool) h,
    )
