-- ===== src/ThreadPool/Runs.antt =====
-- common/sys/thread_pool.cpp: the jobs of tpool_run_all on the workers, and the end of the pool.
use cpufb.Base.{
  ℕ, ◌<◌, ◌≡◌, refl, sym, ap, ◌∙◌, List, [], ◌∷◌, ◌++◌, arith, All, length, some, subst, ◌⊎◌, inl,
  inr, max_u64, false, true,
}
use cpufb.ThreadPool.Machine.{
  Pool, Worker, Job, Phase, booting, idle, armed, running, serving, served, exited,
}
use cpufb.ThreadPool.Client.{
  Client, creating, outside, draining, drained, gathering, collecting, joining, gone, System,
  create, Reach,
}
use cpufb.ThreadPool.Invariant.{working_of, alive_of, WorkerIn, WorkerOk, Inv, Settled, AtRest}
use cpufb.ThreadPool.Tally.{All-map, tally-zero, All-split}
use cpufb.ThreadPool.Barrier.{Reach-Inv}

-- A worker at rest has run every published job.
rest-runs :
    (g : ℕ) (js : List Job) (w : Worker) (ph : Phase) → AtRest ph (Settled g js w) → w.runs ≡ js
rest-runs g js w booting h = absurd h
rest-runs g js w idle h = h.1
rest-runs g js w (serving x) h = h.1
rest-runs g js w served h = h.1
rest-runs g js w _ h = absurd h

-- Where the driving thread stands while some worker is in a parallel job, and what then holds.
running-collecting :
    (c : Client) (g : ℕ) (js : List Job) (j : Job) (w : Worker) (ph : Phase) (k : Job)
    → ph ≡ running k
    → WorkerIn c ph g js j w
    → (c ≡ collecting) ⊎ (c ≡ joining)
running-collecting collecting g js j w ph k e h = inl refl
running-collecting joining g js j w ph k e h = inr refl
running-collecting creating g js j w booting k e h = cc
running-collecting creating g js j w idle k e h = cc
running-collecting creating g js j w _ k e h = absurd h
running-collecting outside g js j w (running i) k e h = absurd h
running-collecting outside g js j w _ k e h = cc
running-collecting (draining n) g js j w (running i) k e h = absurd h
running-collecting (draining n) g js j w _ k e h = cc
running-collecting (drained n) g js j w idle k e h = cc
running-collecting (drained n) g js j w _ k e h = absurd h
running-collecting gathering g js j w (running i) k e h = absurd h
running-collecting gathering g js j w _ k e h = cc
running-collecting gone g js j w ph k e h = cc

collecting-observed :
    (g : ℕ) (js : List Job) (j : Job) (w : Worker) (ph : Phase)
    → WorkerIn collecting ph g js j w
    → w.observed ≡ g
collecting-observed g js j w idle h = h.0
collecting-observed g js j w (armed k) h = h.0
collecting-observed g js j w (running k) h = h.0
collecting-observed g js j w _ h = absurd h

collecting-job :
    (g : ℕ) (js : List Job) (j : Job) (w : Worker) (ph : Phase) (k : Job)
    → ph ≡ running k
    → WorkerIn collecting ph g js j w
    → js ≡ k ∷ w.runs
collecting-job g js j w (running i) k e h = ground arith
collecting-job g js j w idle k e h = cc
collecting-job g js j w (armed i) k e h = cc
collecting-job g js j w _ k e h = absurd h

collecting_barrier :
    (c : Client) (p : Pool) (ws before : List Worker) (w : Worker) (after : List Worker) (k : Job)
    → c ≡ collecting
    → ws ≡ before ++ w ∷ after
    → w.phase ≡ running k
    → Inv (record { pool = p; workers = ws; client = c })
    → (c ≡ collecting)
      × (p.jobs ≡ k ∷ w.runs)
      × All (λ x. x.observed ≡ p.parallel_generation) ws
      × (p.work ≡ [])
collecting_barrier collecting p ws before w after k e at ph v =
    let parts =
      All-split (WorkerOk collecting p) before w after
        (subst (All (WorkerOk collecting p)) at v.workers) in
    (
      refl,
      collecting-job p.parallel_generation p.jobs p.parallel_job w w.phase k ph parts.1,
      All-map (WorkerOk collecting p) _ ws
          (λ x. collecting-observed p.parallel_generation p.jobs p.parallel_job x x.phase)
          v.workers,
      v.pool.2,
    )
collecting_barrier _ p ws before w after k e at ph v = absurd (ground arith)

joining-stop :
    (c : Client) (p : Pool) (ws : List Worker)
    → (c ≡ joining) ⊎ (c ≡ gone)
    → Inv (record { pool = p; workers = ws; client = c })
    → (p.stop ≡ true) × (p.work ≡ [])
joining-stop joining p ws e v = v.pool
joining-stop gone p ws e v = v.pool
joining-stop _ p ws e v = absurd (ground arith)

module _ (cpus : List ℕ) {s t : System} (made : create cpus ≡ some s) (path : Reach s t)
    (few : length t.pool.jobs < max_u64) where
  -- Whenever the driving thread is outside every call, each worker has run each job that was
  -- published by tpool_run_all exactly once, in the order of the calls. Here and below the pool was
  -- made by tpool_create, and fewer than 2 ^ 64 - 1 jobs were published.
  pub runs-outside : t.client ≡ outside → All (λ w. w.runs ≡ t.pool.jobs) t.workers
  runs-outside e =
      let v = Reach-Inv cpus made path few in
      All-map (WorkerOk outside t.pool) _ t.workers
        (λ w. rest-runs t.pool.parallel_generation t.pool.jobs w w.phase)
        (subst (λ c. All (WorkerOk c t.pool) t.workers) e v.workers)

  -- While a worker is inside a parallel job and the pool is not being destroyed, the job is the last
  -- one published and the worker has run all before it and not yet this one; every worker has
  -- passed the first barrier; the queue is empty; and tpool_run_all stands at its second wait.
  pub running_barrier :
      (before : List Worker) (w : Worker) (after : List Worker) (k : Job)
      → t.workers ≡ before ++ w ∷ after
      → w.phase ≡ running k
      → t.pool.stop ≡ false
      → (t.client ≡ collecting)
        × (t.pool.jobs ≡ k ∷ w.runs)
        × All (λ x. x.observed ≡ t.pool.parallel_generation) t.workers
        × (t.pool.work ≡ [])
  running_barrier before w after k e ph go =
      let v = Reach-Inv cpus made path few in
      let parts =
        All-split (WorkerOk t.client t.pool) before w after
          (subst (All (WorkerOk t.client t.pool)) e v.workers) in
      elim (running-collecting t.client t.pool.parallel_generation t.pool.jobs t.pool.parallel_job w
        w.phase k ph parts.1) [
          | inl c ↦ collecting_barrier t.client t.pool t.workers before w after k c e ph v
          | inr c ↦ absurd (ground (arith, joining-stop t.client t.pool t.workers (inl c) v))
        ]

  -- When tpool_destroy returns, every worker has left its loop, none is counted as alive or as
  -- working, and the queue is empty.
  pub gone_quiet :
      t.client ≡ gone
      → All (λ w. w.phase ≡ exited) t.workers
        × (t.pool.thread_cnt ≡ 0)
        × (t.pool.working_cnt ≡ 0)
        × (t.pool.work ≡ [])
  gone_quiet e =
      let v = Reach-Inv cpus made path few in
      let all : All (λ w. w.phase ≡ exited) t.workers =
        subst (λ c. All (WorkerOk c t.pool) t.workers) e v.workers in
      (
        all,
        sym v.alive
            ∙ tally-zero alive_of t.workers (All-map _ _ t.workers (λ w h. ap alive_of h) all),
        sym v.working
            ∙ tally-zero working_of t.workers (All-map _ _ t.workers (λ w h. ap working_of h) all),
        (joining-stop t.client t.pool t.workers (inr e) v).1,
      )
