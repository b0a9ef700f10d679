-- ===== src/ThreadPool/Tests.antt =====
-- Runs of a pool of two workers, and the theorems about the pool at concrete inputs.
use cpufb.ThreadPool.Counters.{seen, Somewhere}
use cpufb.Base.{
  ◌^◌, ◌<◌, ◌≡◌, ◌↔◌, refl, List, [], ◌∷◌, ◌++◌, some, arith, codes, true, false, All, length,
  max_u64, map,
}
use cpufb.ThreadPool.Machine.{Worker, Answers, armed, running, exited, section}
use cpufb.ThreadPool.Client.{
  System, outside, collecting, joining, next, joins, creating, wait, run_all, destroy, create,
  initial, fresh, client_section,
}
use cpufb.ThreadPool.Schedule.{Act, worker, call, acts, acts-Reach, acts-Brief}
use cpufb.ThreadPool.Runs.{runs-outside, running_barrier, gone_quiet}
use cpufb.Cli.Migration.{
  SystemInfoEntry, core_migration, has_entry, reported, entries_of, record_migration_information,
  tpool_get_migration_info, record_migration_information-tpool_get_migration_info,
}
use cpufb.ThreadPool.Parse.{parse_thread_pool}
use cpufb.ThreadPool.Grammar.{Denotes}
use cpufb.ThreadPool.Language.{parse_thread_pool-Denotes}

abbrev pinned : Answers
pinned = record { pinned = true; before = some 0; after = some 1 }

abbrev two : System
two = record { pool = initial 2; workers = fresh 0 ∷ fresh 5 ∷ []; client = creating }

two-create : create (0 ∷ 5 ∷ []) ≡ some two
unfolding create
two-create = refl

abbrev to_barrier : List Act
to_barrier =
    worker 0 pinned
    ∷ worker 1 pinned
    ∷ call wait
    ∷ call (run_all 7)
    ∷ call wait
    ∷ call wait
    ∷ worker 1 pinned
    ∷ worker 0 pinned
    ∷ call wait
    ∷ worker 0 pinned
    ∷ []

abbrev to_end : List Act
to_end = worker 1 pinned ∷ worker 0 pinned ∷ worker 1 pinned ∷ call wait ∷ []

abbrev to_destroy : List Act
to_destroy = call destroy ∷ worker 0 pinned ∷ worker 1 pinned ∷ []

abbrev at_barrier : System
at_barrier = acts two to_barrier

at_barrier_phases : map (λ w. w.phase) at_barrier.workers ≡ running 7 ∷ armed 7 ∷ []
unfolding acts section client_section initial
at_barrier_phases = refl

abbrev finished : System
finished = acts two (to_barrier ++ to_end)

finished_client : finished.client ≡ outside
unfolding acts section client_section initial
finished_client = refl

finished_runs : map (λ w. w.runs) finished.workers ≡ (7 ∷ []) ∷ (7 ∷ []) ∷ []
unfolding acts section client_section initial
finished_runs = refl

finished_few : length finished.pool.jobs < max_u64
unfolding acts section client_section initial
finished_few = omega arith

runs-outside_example : All (λ w. w.runs ≡ finished.pool.jobs) finished.workers
runs-outside_example =
    runs-outside (0 ∷ 5 ∷ []) two-create (acts-Reach two (to_barrier ++ to_end)) finished_few
      finished_client

at_barrier_few : length at_barrier.pool.jobs < max_u64
unfolding acts section client_section initial
at_barrier_few = omega arith

abbrev first_worker : Worker
first_worker = record { cpu = 0; phase = running 7; observed = 1; runs = [] }

abbrev second_worker : Worker
second_worker = record { cpu = 5; phase = armed 7; observed = 1; runs = [] }

at_barrier_workers : at_barrier.workers ≡ [] ++ first_worker ∷ second_worker ∷ []
unfolding acts section client_section initial
at_barrier_workers = refl

at_barrier_runs_on : at_barrier.pool.stop ≡ false
unfolding acts section client_section initial
at_barrier_runs_on = refl

running_barrier_example :
    (at_barrier.client ≡ collecting)
    × (at_barrier.pool.jobs ≡ 7 ∷ [])
    × All (λ x. x.observed ≡ at_barrier.pool.parallel_generation) at_barrier.workers
    × (at_barrier.pool.work ≡ [])
running_barrier_example =
    running_barrier (0 ∷ 5 ∷ []) two-create (acts-Reach two to_barrier) at_barrier_few []
      first_worker (second_worker ∷ []) 7 at_barrier_workers refl at_barrier_runs_on

abbrev left : System
left = acts two (to_barrier ++ to_end ++ to_destroy)

left_client : left.client ≡ joining
unfolding acts section client_section initial
left_client = refl

left_workers : All (λ w. w.phase ≡ exited) left.workers
unfolding acts section client_section initial
left_workers = (refl, (refl, tt))

left_few : length left.pool.jobs < max_u64
unfolding acts section client_section initial
left_few = omega arith

gone_quiet_example :
    All (λ w. w.phase ≡ exited) left.workers
    × (left.pool.thread_cnt ≡ 0)
    × (left.pool.working_cnt ≡ 0)
    × (left.pool.work ≡ [])
gone_quiet_example =
    gone_quiet (0 ∷ 5 ∷ []) two-create
      (next (acts-Reach two (to_barrier ++ to_end ++ to_destroy)) (joins left_client left_workers))
      left_few refl

parse_thread_pool-Denotes_example :
    (parse_thread_pool (codes "[0,3]") ≡ some (0 ∷ 3 ∷ [])) ↔ Denotes (codes "[0,3]") (0 ∷ 3 ∷ [])
parse_thread_pool-Denotes_example = parse_thread_pool-Denotes (codes "[0,3]") (0 ∷ 3 ∷ [])

abbrev entries : List SystemInfoEntry
entries = record { item = core_migration; value = []; source = [] } ∷ []

entries-has_entry : has_entry entries ≡ true
unfolding has_entry cpufb.Text.Bytes.bytes_eq
entries-has_entry = refl

finished_mismatches : finished.pool.cpu_mismatch_cnt ≡ 2
unfolding acts section client_section initial
finished_mismatches = refl

abbrev schedule : List Act
schedule = to_barrier ++ to_end

schedule_short : length schedule < 2 ^ 64
schedule_short = omega arith

record_migration_information-tpool_get_migration_info_example :
    (reported (
        entries_of
          (record_migration_information (some entries) (tpool_get_migration_info finished.pool)).0)
      ≡ some (codes "yes"))
    ↔ Somewhere (seen (acts-Brief two schedule).0)
record_migration_information-tpool_get_migration_info_example =
    record_migration_information-tpool_get_migration_info (0 ∷ 5 ∷ []) two-create
      (acts-Brief two schedule).0 (omega (arith, (acts-Brief two schedule).1, schedule_short))
      entries entries-has_entry
