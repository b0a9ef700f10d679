-- ===== src/ThreadPool/Sections.antt =====
-- common/sys/thread_pool.cpp: one section of a worker, from the driving thread's point of view.
use cpufb.Base.{ℕ, ◌+◌, ◌≤◌, ◌≡◌, List, arith}
use cpufb.ThreadPool.Machine.{
  Pool, Worker, Job, Answers, Phase, booting, idle, armed, running, serving, served, exited,
  section,
}
use cpufb.ThreadPool.Client.{
  Client, creating, outside, draining, drained, gathering, collecting, joining, gone,
}
use cpufb.ThreadPool.Invariant.{
  working_of, alive_of, booted_of, armed_of, rested_of, WorkerOk, PoolIn,
}

-- The pool `q` and the worker `v` that a section makes of `p` and `w`.
pub record Kept (p : Pool) (w : Worker) (q : Pool) (v : Worker) : Type 0 where
  pub thread_num : q.thread_num ≡ p.thread_num
  pub generation : q.parallel_generation ≡ p.parallel_generation
  pub start_generation : q.parallel_start_generation ≡ p.parallel_start_generation
  pub job : q.parallel_job ≡ p.parallel_job
  pub jobs : q.jobs ≡ p.jobs
  pub stop : q.stop ≡ p.stop
  pub working : q.working_cnt + working_of w.phase ≡ p.working_cnt + working_of v.phase
  pub alive : q.thread_cnt + alive_of w.phase ≡ p.thread_cnt + alive_of v.phase

abbrev pub worker_at : Phase → ℕ → ℕ → List Job → Worker
worker_at ph cpu o r = record { cpu = cpu; phase = ph; observed = o; runs = r }

pub section-Kept :
    (p : Pool) (ph : Phase) (cpu o : ℕ) (r : List Job) (a : Answers)
    → let w = worker_at ph cpu o r in
      working_of ph ≤ p.working_cnt
      → alive_of ph ≤ p.thread_cnt
      → Kept p w (section p w a).0 (section p w a).1
unfolding section
section-Kept p booting cpu o r a h k = ground arith
section-Kept p idle cpu o r a h k = ground arith
section-Kept p (armed j) cpu o r a h k = ground arith
section-Kept p (running j) cpu o r a h k = ground arith
section-Kept p (serving x) cpu o r a h k = ground arith
section-Kept p served cpu o r a h k = ground arith
section-Kept p exited cpu o r a h k = ground arith

-- The invariant of one worker and of the pool, where `b`, `m` and `n` count the other workers.
abbrev pub Good : Client → Pool → Worker → ℕ → ℕ → ℕ → Type 0
Good c p w b m n =
    WorkerOk c p w
    × PoolIn c p (booted_of w.phase + b) (armed_of w.phase + m) (rested_of w.phase + n)

pub section-Good :
    (c : Client) (p : Pool) (ph : Phase) (cpu o : ℕ) (r : List Job) (a : Answers) (b m n : ℕ)
    → let w = worker_at ph cpu o r in
      Good c p w b m n → Good c (section p w a).0 (section p w a).1 b m n
unfolding section
section-Good creating p booting cpu o r a b m n g = ground arith
section-Good creating p idle cpu o r a b m n g = ground arith
section-Good creating p _ cpu o r a b m n g = absurd g.0
section-Good outside p booting cpu o r a b m n g = absurd g.0
section-Good outside p idle cpu o r a b m n g = ground arith
section-Good outside p (serving x) cpu o r a b m n g = ground arith
section-Good outside p served cpu o r a b m n g = ground arith
section-Good outside p _ cpu o r a b m n g = absurd g.0
section-Good (draining j) p booting cpu o r a b m n g = absurd g.0
section-Good (draining j) p idle cpu o r a b m n g = ground arith
section-Good (draining j) p (serving x) cpu o r a b m n g = ground arith
section-Good (draining j) p served cpu o r a b m n g = ground arith
section-Good (draining j) p _ cpu o r a b m n g = absurd g.0
section-Good (drained j) p idle cpu o r a b m n g = ground arith
section-Good (drained j) p _ cpu o r a b m n g = absurd g.0
section-Good gathering p idle cpu o r a b m n g = ground arith
section-Good gathering p (armed j) cpu o r a b m n g = ground arith
section-Good gathering p _ cpu o r a b m n g = absurd g.0
section-Good collecting p idle cpu o r a b m n g = ground arith
section-Good collecting p (armed j) cpu o r a b m n g = ground arith
section-Good collecting p (running j) cpu o r a b m n g = ground arith
section-Good collecting p _ cpu o r a b m n g = absurd g.0
section-Good joining p booting cpu o r a b m n g = ground arith
section-Good joining p idle cpu o r a b m n g = ground arith
section-Good joining p (armed j) cpu o r a b m n g = ground arith
section-Good joining p (running j) cpu o r a b m n g = ground arith
section-Good joining p (serving x) cpu o r a b m n g = ground arith
section-Good joining p served cpu o r a b m n g = ground arith
section-Good joining p exited cpu o r a b m n g = ground arith
section-Good gone p exited cpu o r a b m n g = ground arith
section-Good gone p _ cpu o r a b m n g = cc
