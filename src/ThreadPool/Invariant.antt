-- ===== src/ThreadPool/Invariant.antt =====
-- common/sys/thread_pool.cpp: what holds of the pool and its workers between any two sections.
use cpufb.Base.{ℕ, suc, ◌+◌, ◌≡◌, List, [], ◌∷◌, true, false, All, length}
use cpufb.ThreadPool.Machine.{
  Pool, Worker, Job, Phase, booting, idle, armed, running, serving, served, exited,
}
use cpufb.ThreadPool.Client.{
  Client, creating, outside, draining, drained, gathering, collecting, joining, gone, System,
}

-- Kinds of phases, as the numbers that are added up over the workers.
abbrev pub working_of : Phase → ℕ
working_of (serving x) = 1
working_of served = 1
working_of _ = 0

abbrev pub alive_of : Phase → ℕ
alive_of exited = 0
alive_of _ = 1

abbrev pub booted_of : Phase → ℕ
booted_of booting = 0
booted_of _ = 1

abbrev pub armed_of : Phase → ℕ
armed_of (armed j) = 1
armed_of _ = 0

abbrev pub rested_of : Phase → ℕ
rested_of idle = 1
rested_of _ = 0

abbrev pub tally : (Phase → ℕ) → List Worker → ℕ
tally f [] = 0
tally f (w ∷ ws) = f w.phase + tally f ws

-- A worker that has run every published job, and has seen the last generation.
abbrev pub Settled : ℕ → List Job → Worker → Type 0
Settled generation jobs w = (w.observed ≡ generation) × (w.runs ≡ jobs)

-- A worker that has seen the last generation, and has its job `j` still to run.
abbrev pub Ready : ℕ → List Job → Worker → Job → Type 0
Ready generation jobs w j = (w.observed ≡ generation) × (jobs ≡ j ∷ w.runs)

-- A worker that has not seen the last generation, whose job is `j`.
abbrev pub Behind : ℕ → List Job → Worker → Job → Type 0
Behind generation jobs w j = (suc w.observed ≡ generation) × (jobs ≡ j ∷ w.runs)

abbrev pub AtRest : Phase → Type 0 → Type 0
AtRest idle P = P
AtRest (serving x) P = P
AtRest served P = P
AtRest _ P = ⊥

-- Where a worker may stand while the driving thread stands at the first argument; then come the
-- generation, the published jobs and the last of them.
abbrev pub WorkerIn : Client → Phase → ℕ → List Job → Job → Worker → Type 0
WorkerIn creating booting g js j w = Settled g js w
WorkerIn creating idle g js j w = Settled g js w
WorkerIn creating _ g js j w = ⊥
WorkerIn outside ph g js j w = AtRest ph (Settled g js w)
WorkerIn (draining next) ph g js j w = AtRest ph (Settled g js w)
WorkerIn (drained next) idle g js j w = Settled g js w
WorkerIn (drained next) _ g js j w = ⊥
WorkerIn gathering idle g js j w = Behind g js w j
WorkerIn gathering (armed k) g js j w = Ready g js w k
WorkerIn gathering _ g js j w = ⊥
WorkerIn collecting idle g js j w = Settled g js w
WorkerIn collecting (armed k) g js j w = Ready g js w k
WorkerIn collecting (running k) g js j w = Ready g js w k
WorkerIn collecting _ g js j w = ⊥
WorkerIn joining ph g js j w = Unit
WorkerIn gone ph g js j w = ph ≡ exited

abbrev pub WorkerOk : Client → Pool → Worker → Type 0
WorkerOk c p w = WorkerIn c w.phase p.parallel_generation p.jobs p.parallel_job w

-- The fields of the pool while the driving thread stands at the first argument. The numbers are
-- the workers that have booted, that are armed, and that are idle.
abbrev pub PoolIn : Client → Pool → ℕ → ℕ → ℕ → Type 0
PoolIn creating p b a r =
    (p.stop ≡ false)
    × (p.parallel_start_generation ≡ p.parallel_generation)
    × (p.work ≡ [])
    × (b ≡ p.startup_ready_cnt)
PoolIn outside p b a r = (p.stop ≡ false) × (p.parallel_start_generation ≡ p.parallel_generation)
PoolIn (draining j) p b a r =
    (p.stop ≡ false) × (p.parallel_start_generation ≡ p.parallel_generation)
PoolIn (drained j) p b a r =
    (p.stop ≡ false) × (p.parallel_start_generation ≡ p.parallel_generation) × (p.work ≡ [])
PoolIn gathering p b a r =
    (p.stop ≡ false)
    × (suc p.parallel_start_generation ≡ p.parallel_generation)
    × (p.work ≡ [])
    × (a ≡ p.parallel_ready_cnt)
    × (p.parallel_done_cnt ≡ 0)
PoolIn collecting p b a r =
    (p.stop ≡ false)
    × (p.parallel_start_generation ≡ p.parallel_generation)
    × (p.work ≡ [])
    × (r ≡ p.parallel_done_cnt)
PoolIn joining p b a r = (p.stop ≡ true) × (p.work ≡ [])
PoolIn gone p b a r = (p.stop ≡ true) × (p.work ≡ [])

abbrev pub PoolOk : Client → Pool → List Worker → Type 0
PoolOk c p ws = PoolIn c p (tally booted_of ws) (tally armed_of ws) (tally rested_of ws)

pub record Inv (s : System) : Type 0 where
  pub size : length s.workers ≡ s.pool.thread_num
  pub working : tally working_of s.workers ≡ s.pool.working_cnt
  pub alive : tally alive_of s.workers ≡ s.pool.thread_cnt
  pub generation : s.pool.parallel_generation ≡ length s.pool.jobs
  pub workers : All (WorkerOk s.client s.pool) s.workers
  pub pool : PoolOk s.client s.pool s.workers
