-- ===== src/ThreadPool/Client.antt =====
-- common/sys/thread_pool.cpp: the calls of the thread that drives the pool, as sections like those
-- of the workers, and the steps of the whole system. One thread makes all the calls, as in the
-- front ends; a condition variable is a wait for a condition, with no wake-up lost.
use cpufb.Base.{
  ℕ, ◌+◌, ◌≡◌, List, [], ◌∷◌, ◌++◌, Option, none, some, Bool, true, false, not, ◌&&◌, ◌||◌, ◌==◌,
  if◌then◌else◌, u64, All, length, map,
}
use cpufb.ThreadPool.Machine.{Pool, Worker, Job, Work, Answers, booting, exited, is_empty, section}

-- Where the driving thread stands: in tpool_create; outside every call; in tpool_wait, on its own
-- or at the start of tpool_run_all; in tpool_run_all before it takes the mutex again, at its first
-- and at its second wait; in the joins of tpool_destroy; and behind them.
pub data Client : Type 0 where
  creating outside : Client
  draining : Option Job → Client
  drained : Job → Client
  gathering collecting joining gone : Client

-- The calls that it may make next.
pub data Command : Type 0 where
  add_work : Work → Command
  wait : Command
  run_all : Job → Command
  destroy : Command

pub record System : Type 0 where
  pub pool : Pool
  pub workers : List Worker
  pub client : Client

-- A worker that was made for a CPU and has not run yet.
abbrev pub fresh : ℕ → Worker
fresh cpu = record { cpu = cpu; phase = booting; observed = 0; runs = [] }

-- The zeroed struct with its two numbers of threads.
unfoldable pub initial : ℕ → Pool
initial num = record {
  work = [];
  working_cnt = 0;
  thread_cnt = num;
  thread_num = num;
  startup_ready_cnt = 0;
  affinity_failure_cnt = 0;
  cpu_observation_cnt = 0;
  cpu_migration_cnt = 0;
  cpu_mismatch_cnt = 0;
  parallel_ready_cnt = 0;
  parallel_done_cnt = 0;
  parallel_generation = 0;
  parallel_start_generation = 0;
  parallel_job = 0;
  stop = false;
  jobs = [];
  queued = [];
  ran = [];
}

-- tpool_create up to its wait, where every thread could be made: `none` is its read behind the end
-- of an empty list, for which it sets out to make two threads.
unfoldable pub create : List ℕ → Option System
unfolding initial
create [] = none
create (c ∷ cpus) = some (record {
  pool = initial (length (c ∷ cpus));
  workers = map fresh (c ∷ cpus);
  client = creating;
})

-- The first section of tpool_destroy.
unfoldable pub shut_down : Pool → Pool × Client
shut_down p = (record p { work = []; stop = true }, joining)

-- The end of tpool_create: a pool with a worker that is not pinned is destroyed.
unfoldable pub created : Pool → Pool × Client
unfolding shut_down
created p =
    if not (p.startup_ready_cnt == p.thread_num)
    then (p, creating)
    else if not (p.affinity_failure_cnt == 0)
    then shut_down p
    else (p, outside)

-- tpool_add_work: the item goes to the end of the queue.
unfoldable pub add : Pool → Work → Pool × Client
add p x = (record p { work = p.work ++ x ∷ []; queued = x ∷ p.queued }, outside)

-- The condition of the wait in tpool_wait.
unfoldable pub is_busy : Pool → Bool
is_busy p =
    not (is_empty p.work)
    || (not p.stop && not (p.working_cnt == 0))
    || (p.stop && not (p.thread_cnt == 0))

-- tpool_wait, on its own or on behalf of tpool_run_all.
unfoldable pub drain : Pool → Option Job → Pool × Client
unfolding is_busy
drain p job =
    if is_busy p then (p, draining job) else (p, elim job [ none ↦ outside | some j ↦ drained j ])

-- tpool_run_all up to its first wait: the job and the new generation are published.
unfoldable pub publish : Pool → Job → Pool × Client
publish p j = if p.stop then (p, outside) else (
  record p {
    parallel_job = j;
    parallel_ready_cnt = 0;
    parallel_done_cnt = 0;
    parallel_generation = u64 (p.parallel_generation + 1);
    jobs = j ∷ p.jobs;
  },
  gathering,
)

-- The first wait, and the start of the run behind it: `start` is read here.
unfoldable pub gather : Pool → Pool × Client
gather p =
    if not (p.parallel_ready_cnt == p.thread_num) && not p.stop
    then (p, gathering)
    else if p.stop
    then (p, outside)
    else (record p { parallel_start_generation = p.parallel_generation }, collecting)

-- The second wait: `end` is read behind it, and the call returns.
unfoldable pub collect : Pool → Pool × Client
collect p =
    if not (p.parallel_done_cnt == p.thread_num) && not p.stop
    then (p, collecting)
    else (p, outside)

-- The next section of the driving thread; the command counts only outside a call.
unfoldable pub client_section : Pool → Client → Command → Pool × Client
unfolding created add drain publish gather collect shut_down
client_section p creating k = created p
client_section p outside (add_work x) = add p x
client_section p outside wait = (p, draining none)
client_section p outside (run_all j) = (p, draining (some j))
client_section p outside destroy = shut_down p
client_section p (draining job) k = drain p job
client_section p (drained j) k = publish p j
client_section p gathering k = gather p
client_section p collecting k = collect p
client_section p joining k = (p, joining)
client_section p gone k = (p, gone)

-- A step of some worker, of the driving thread, or its return from the last join.
pub data Step (s : System) : System → Type 0 where
  works :
      (before : List Worker) (w : Worker) (after : List Worker) (a : Answers)
      → s.workers ≡ before ++ w ∷ after
      → Step s (record {
        pool = (section s.pool w a).0;
        workers = before ++ (section s.pool w a).1 ∷ after;
        client = s.client;
      })
  calls :
      (k : Command)
      → Step s (record {
        pool = (client_section s.pool s.client k).0;
        workers = s.workers;
        client = (client_section s.pool s.client k).1;
      })
  joins :
      s.client ≡ joining
      → All (λ w. w.phase ≡ exited) s.workers
      → Step s (record s { client = gone })

pub data Reach (s : System) : System → Type 0 where
  here : Reach s s
  next : {t u : System} → Reach s t → Step t u → Reach s u
