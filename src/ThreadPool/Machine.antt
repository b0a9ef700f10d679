-- ===== src/ThreadPool/Machine.antt =====
-- common/sys/thread_pool.hpp and .cpp: the pool, its workers and the one thread that drives it.
-- A step is a stretch of code that runs with the mutex held, from a lock or a wake-up to the next
-- unlock or wait; a wait whose condition does not hold leaves everything as it is. A worker that
-- does not release the mutex between two stretches may here be interrupted between them, so that
-- there are more interleavings than in the code, and none fewer.
use cpufb.Base.{
  u64, ℕ, ◌+◌, ◌-◌, List, [], ◌∷◌, Option, none, some, Bool, true, false, not, ◌&&◌, ◌||◌, ltb,
  ◌==◌, if◌then◌else◌,
}

-- A job of a parallel run and an item of the work queue, each standing for a function with its
-- argument.
abbrev pub Job : Type 0
Job = ℕ

abbrev pub Work : Type 0
Work = ℕ

-- struct tpool. `work_first` and `work_last` are the list `work`, oldest first. The last three
-- fields are no part of the struct: the jobs published so far, newest first, and the items that
-- were queued and that were run.
pub record Pool : Type 0 where
  pub work : List Work
  pub working_cnt : ℕ
  pub thread_cnt : ℕ
  pub thread_num : ℕ
  pub startup_ready_cnt : ℕ
  pub affinity_failure_cnt : ℕ
  pub cpu_observation_cnt : ℕ
  pub cpu_migration_cnt : ℕ
  pub cpu_mismatch_cnt : ℕ
  pub parallel_ready_cnt : ℕ
  pub parallel_done_cnt : ℕ
  pub parallel_generation : ℕ
  pub parallel_start_generation : ℕ
  pub parallel_job : Job
  pub stop : Bool
  pub jobs : List Job
  pub queued : List Work
  pub ran : List Work

-- Where a worker stands: before its first lock; at the head of its loop; between the two barriers
-- of a parallel run; in its job; in an item that it took from the queue; behind that item, before
-- it is counted out; and out of its loop.
pub data Phase : Type 0 where
  booting idle : Phase
  armed running : Job → Phase
  serving : Option Work → Phase
  served exited : Phase

-- The variables of tpool_worker. The last field is no variable: the jobs that it has run, newest
-- first.
pub record Worker : Type 0 where
  pub cpu : ℕ
  pub phase : Phase
  pub observed : ℕ
  pub runs : List Job

-- What the operating system answers in a section: whether the thread could be pinned, and the CPU
-- before and after a job, `none` where it is unknown.
pub record Answers : Type 0 where
  pub pinned : Bool
  pub before : Option ℕ
  pub after : Option ℕ

differs : ℕ → ℕ → ℕ
differs a b = if a == b then 0 else 1

unfoldable pub record_cpu_observation : Pool → ℕ → Answers → Pool
unfolding differs
record_cpu_observation p cpu a = elim a.before [
  | none ↦ p
  | some before ↦ elim a.after [
    | none ↦ p
    | some after ↦ record p {
      cpu_observation_cnt = u64 (p.cpu_observation_cnt + 1);
      cpu_migration_cnt = u64 (p.cpu_migration_cnt + differs before after);
      cpu_mismatch_cnt =
          u64 (p.cpu_mismatch_cnt + (if not (before == cpu) || not (after == cpu) then 1 else 0));
    }
  ]
]

-- The start of tpool_worker.
unfoldable pub boot : Pool → Worker → Answers → Pool × Worker
boot p w a = (
  record p {
    affinity_failure_cnt = p.affinity_failure_cnt + (if a.pinned then 0 else 1);
    startup_ready_cnt = p.startup_ready_cnt + 1;
  },
  record w { phase = idle },
)

-- Behind the loop of tpool_worker.
unfoldable pub leave : Pool → Worker → Pool × Worker
leave p w = (record p { thread_cnt = p.thread_cnt - 1 }, record w { phase = exited })

unfoldable pub is_empty {ℓ} : {A : Type ℓ} → List A → Bool
is_empty [] = true
is_empty (x ∷ xs) = false

-- tpool_work_get, on the queue as a list.
unfoldable pub take_work : Pool → Worker → Pool × Worker
take_work p w = elim p.work [
  | [] ↦ (record p { working_cnt = p.working_cnt + 1 }, record w { phase = serving none })
  | x ∷ rest ↦ (
    record p { work = rest; working_cnt = p.working_cnt + 1 },
    record w { phase = serving (some x) },
  )
]

-- The head of the loop: wait, leave, enter a parallel run, or take an item.
unfoldable pub loop_head : Pool → Worker → Pool × Worker
unfolding leave is_empty take_work
loop_head p w =
    if is_empty p.work && p.parallel_generation == w.observed && not p.stop
    then (p, w)
    else if p.stop
    then leave p w
    else if p.parallel_generation == w.observed
    then take_work p w
    else (
      record p { parallel_ready_cnt = p.parallel_ready_cnt + 1 },
      record w { phase = armed p.parallel_job; observed = p.parallel_generation },
    )

-- The barrier in front of a parallel job.
unfoldable pub barrier : Pool → Worker → Job → Pool × Worker
unfolding leave
barrier p w j =
    if ltb p.parallel_start_generation w.observed && not p.stop
    then (p, w)
    else if p.stop
    then leave p w
    else (p, record w { phase = running j })

-- Behind a parallel job.
unfoldable pub job_done : Pool → Worker → Job → Answers → Pool × Worker
unfolding record_cpu_observation
job_done p w j a =
    let q = record_cpu_observation p w.cpu a in
    (
      record q { parallel_done_cnt = q.parallel_done_cnt + 1 },
      record w { phase = idle; runs = j ∷ w.runs },
    )

-- Behind an item of the queue, if there was one.
unfoldable pub work_done : Pool → Worker → Option Work → Answers → Pool × Worker
unfolding record_cpu_observation
work_done p w none a = (p, record w { phase = served })
work_done p w (some x) a =
    let q = record_cpu_observation p w.cpu a in
    (record q { ran = x ∷ q.ran }, record w { phase = served })

unfoldable pub count_out : Pool → Worker → Pool × Worker
count_out p w = (record p { working_cnt = p.working_cnt - 1 }, record w { phase = idle })

-- The next section of a worker.
unfoldable pub section_in : Phase → Pool → Worker → Answers → Pool × Worker
unfolding boot loop_head barrier job_done work_done count_out
section_in booting p w a = boot p w a
section_in idle p w a = loop_head p w
section_in (armed j) p w a = barrier p w j
section_in (running j) p w a = job_done p w j a
section_in (serving x) p w a = work_done p w x a
section_in served p w a = count_out p w
section_in exited p w a = (p, w)

unfoldable pub section : Pool → Worker → Answers → Pool × Worker
unfolding section_in
section p w a = section_in w.phase p w a
