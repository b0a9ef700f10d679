-- ===== src/ThreadPool/Calls.antt =====
-- common/sys/thread_pool.cpp: the invariant and the sections of the driving thread.
use cpufb.Base.{
  ℕ, suc, ◌+◌, ◌≤◌, ◌<◌, ◌≡◌, refl, sym, ◌∙◌, ap, List, [], ◌∷◌, false, arith, All, length, Option,
  none, some, Bool-cases, inl, inr, max_u64, u64, ◌==◌, ==→eq,
}
use cpufb.ThreadPool.Machine.{
  Pool, Worker, Job, Work, is_empty, Phase, booting, idle, armed, serving, served,
}
use cpufb.ThreadPool.Client.{
  Client, creating, outside, draining, drained, gathering, collecting, joining, gone, Command,
  add_work, wait, run_all, destroy, client_section, shut_down, created, add, drain, publish, gather,
  collect, is_busy,
}
use cpufb.ThreadPool.Invariant.{
  working_of, booted_of, armed_of, rested_of, tally, WorkerIn, WorkerOk, Inv,
}
use cpufb.ThreadPool.Tally.{All-map, All-counted, All-uncounted, tally-zero}

-- The invariant over its parts.
abbrev InvAt : Client → Pool → List Worker → Type 0
InvAt c p ws = Inv (record { pool = p; workers = ws; client = c })

-- What a worker is known to be when the driving thread goes on.
booted-le : (ph : Phase) → booted_of ph ≤ 1
booted-le booting = omega arith
booted-le _ = omega arith

armed-le : (ph : Phase) → armed_of ph ≤ 1
armed-le (armed j) = omega arith
armed-le _ = omega arith

rested-le : (ph : Phase) → rested_of ph ≤ 1
rested-le idle = omega arith
rested-le _ = omega arith

module _ (g : ℕ) (js : List Job) (j : Job) (w : Worker) where
  booted_outside :
      (ph : Phase) → booted_of ph ≡ 1 → WorkerIn creating ph g js j w → WorkerIn outside ph g js j w
  booted_outside booting e h = absurd (omega arith)
  booted_outside idle e h = h
  booted_outside _ e h = absurd h

  resting_drained :
      (k : Option Job) (n : Job) (ph : Phase)
      → working_of ph ≡ 0
      → WorkerIn (draining k) ph g js j w
      → WorkerIn (drained n) ph g js j w
  resting_drained k n booting e h = absurd h
  resting_drained k n idle e h = h
  resting_drained k n (serving x) e h = absurd (omega arith)
  resting_drained k n served e h = absurd (omega arith)
  resting_drained k n _ e h = absurd h

  drained_gathering :
      (n : Job) (ph : Phase)
      → WorkerIn (drained n) ph g js j w
      → WorkerIn gathering ph (suc g) (n ∷ js) n w
  drained_gathering n booting h = absurd h
  drained_gathering n idle h = (ap suc h.0, ap (λ r. n ∷ r) (sym h.1))
  drained_gathering n _ h = absurd h

  drained-armed : (n : Job) (ph : Phase) → WorkerIn (drained n) ph g js j w → armed_of ph ≡ 0
  drained-armed n (armed k) h = absurd h
  drained-armed n _ h = refl

  armed_collecting :
      (ph : Phase)
      → armed_of ph ≡ 1
      → WorkerIn gathering ph g js j w
      → WorkerIn collecting ph g js j w
  armed_collecting (armed k) e h = h
  armed_collecting _ e h = absurd (omega arith)

  rested_outside :
      (ph : Phase)
      → rested_of ph ≡ 1
      → WorkerIn collecting ph g js j w
      → WorkerIn outside ph g js j w
  rested_outside idle e h = h
  rested_outside _ e h = absurd (omega arith)

armed-rested : (ph : Phase) → armed_of ph ≡ 1 → rested_of ph ≡ 0
armed-rested (armed k) e = refl
armed-rested idle e = absurd (omega arith)
armed-rested _ e = refl

not_busy : (p : Pool) → is_busy p ≡ false → p.stop ≡ false → (p.work ≡ []) × (p.working_cnt ≡ 0)
unfolding is_busy is_empty
not_busy p e h = ground arith

module _ (p : Pool) (ws : List Worker) where
  shut_down-Inv : (c : Client) → InvAt c p ws → InvAt (shut_down p).1 (shut_down p).0 ws
  unfolding shut_down
  shut_down-Inv c v = record {
    size = v.size;
    working = v.working;
    alive = v.alive;
    generation = v.generation;
    workers = All-map (WorkerOk c p) _ ws (λ w h. tt) v.workers;
    pool = (refl, refl);
  }

  created-Inv : InvAt creating p ws → InvAt (created p).1 (created p).0 ws
  unfolding created
  created-Inv v = elim (Bool-cases (p.startup_ready_cnt == p.thread_num)) [
    | inr e ↦ rw e v
    | inl e ↦
        let all : tally booted_of ws ≡ length ws =
          omega (arith, v.pool.3, v.size, ==→eq p.startup_ready_cnt p.thread_num e) in
        elim (Bool-cases (p.affinity_failure_cnt == 0)) [
          | inr f ↦ rw (e, f) (shut_down-Inv creating v)
          | inl f ↦
              rw (e, f)
                (record {
                  size = v.size;
                  working = v.working;
                  alive = v.alive;
                  generation = v.generation;
                  workers =
                      All-counted booted_of (WorkerOk creating p) (WorkerOk outside p) ws booted-le
                        (λ w. booted_outside p.parallel_generation p.jobs p.parallel_job w w.phase)
                        all v.workers;
                  pool = (v.pool.0, v.pool.1);
                })
        ]
  ]

  add-Inv : (x : Work) → InvAt outside p ws → InvAt (add p x).1 (add p x).0 ws
  unfolding add
  add-Inv x v = record {
    size = v.size;
    working = v.working;
    alive = v.alive;
    generation = v.generation;
    workers = v.workers;
    pool = v.pool;
  }

  drain-Inv : (k : Option Job) → InvAt (draining k) p ws → InvAt (drain p k).1 (drain p k).0 ws
  unfolding drain
  drain-Inv k v = elim (Bool-cases (is_busy p)) [
    | inl e ↦ rw e v
    | inr e ↦ rw e (idle-Inv k v (not_busy p e v.pool.0))
  ]
    where
      idle-Inv :
          (k : Option Job)
          → InvAt (draining k) p ws
          → (p.work ≡ []) × (p.working_cnt ≡ 0)
          → InvAt (elim k [ none ↦ outside | some j ↦ drained j ]) p ws
      idle-Inv none v f = record {
        size = v.size;
        working = v.working;
        alive = v.alive;
        generation = v.generation;
        workers = v.workers;
        pool = v.pool;
      }
      idle-Inv (some n) v f = record {
        size = v.size;
        working = v.working;
        alive = v.alive;
        generation = v.generation;
        workers =
            All-uncounted working_of (WorkerOk (draining (some n)) p) (WorkerOk (drained n) p) ws
              (λ w.
                resting_drained p.parallel_generation p.jobs p.parallel_job w (some n) n w.phase)
              (v.working ∙ f.1) v.workers;
        pool = (v.pool.0, v.pool.1, f.0);
      }

  publish-Inv :
      (n : Job)
      → InvAt (drained n) p ws
      → length p.jobs < max_u64
      → InvAt (publish p n).1 (publish p n).0 ws
  unfolding publish
  publish-Inv n v h =
      let next : u64 (p.parallel_generation + 1) ≡ suc p.parallel_generation =
        omega (arith, v.generation) in
      simp (v.pool.0, next)
        (record {
          size = v.size;
          working = v.working;
          alive = v.alive;
          generation = ap suc v.generation;
          workers =
              All-map (WorkerOk (drained n) p) _ ws
                (λ w. drained_gathering p.parallel_generation p.jobs p.parallel_job w n w.phase)
                v.workers;
          pool = (
            refl,
            ap suc v.pool.1,
            v.pool.2,
            tally-zero armed_of ws (
                All-map (WorkerOk (drained n) p) (λ w. armed_of w.phase ≡ 0) ws
                  (λ w. drained-armed p.parallel_generation p.jobs p.parallel_job w n w.phase)
                  v.workers),
            refl,
          );
        })

  gather-Inv : InvAt gathering p ws → InvAt (gather p).1 (gather p).0 ws
  unfolding gather
  gather-Inv v = elim (Bool-cases (p.parallel_ready_cnt == p.thread_num)) [
    | inr e ↦ simp (e, v.pool.0) v
    | inl e ↦
        let all : tally armed_of ws ≡ length ws =
          omega (arith, v.pool.3, v.size, ==→eq p.parallel_ready_cnt p.thread_num e) in
        let unrested : All (λ w. rested_of w.phase ≡ 0) ws =
          All-counted armed_of (WorkerOk gathering p) (λ w. rested_of w.phase ≡ 0) ws armed-le
            (λ w f h. armed-rested w.phase f) all v.workers in
        simp (e, v.pool.0)
          (record {
            size = v.size;
            working = v.working;
            alive = v.alive;
            generation = v.generation;
            workers =
                All-counted armed_of (WorkerOk gathering p) (WorkerOk collecting p) ws armed-le
                  (λ w. armed_collecting p.parallel_generation p.jobs p.parallel_job w w.phase) all
                  v.workers;
            pool = (refl, refl, v.pool.2, tally-zero rested_of ws unrested ∙ sym v.pool.4);
          })
  ]

  collect-Inv : InvAt collecting p ws → InvAt (collect p).1 (collect p).0 ws
  unfolding collect
  collect-Inv v = elim (Bool-cases (p.parallel_done_cnt == p.thread_num)) [
    | inr e ↦ simp (e, v.pool.0) v
    | inl e ↦
        let all : tally rested_of ws ≡ length ws =
          omega (arith, v.pool.3, v.size, ==→eq p.parallel_done_cnt p.thread_num e) in
        rw e (record {
          size = v.size;
          working = v.working;
          alive = v.alive;
          generation = v.generation;
          workers =
              All-counted rested_of (WorkerOk collecting p) (WorkerOk outside p) ws rested-le
                (λ w. rested_outside p.parallel_generation p.jobs p.parallel_job w w.phase) all
                v.workers;
          pool = (v.pool.0, v.pool.1);
        })
  ]

-- A section of the driving thread, while fewer than 2 ^ 64 - 1 jobs were published.
pub calls-Inv :
    (c : Client) (p : Pool) (ws : List Worker) (k : Command)
    → InvAt c p ws
    → length p.jobs < max_u64
    → InvAt (client_section p c k).1 (client_section p c k).0 ws
unfolding client_section
calls-Inv creating p ws k v h = created-Inv p ws v
calls-Inv outside p ws (add_work x) v h = add-Inv p ws x v
calls-Inv outside p ws wait v h = record {
  size = v.size;
  working = v.working;
  alive = v.alive;
  generation = v.generation;
  workers = v.workers;
  pool = v.pool;
}
calls-Inv outside p ws (run_all j) v h = record {
  size = v.size;
  working = v.working;
  alive = v.alive;
  generation = v.generation;
  workers = v.workers;
  pool = v.pool;
}
calls-Inv outside p ws destroy v h = shut_down-Inv p ws outside v
calls-Inv (draining j) p ws k v h = drain-Inv p ws j v
calls-Inv (drained j) p ws k v h = publish-Inv p ws j v h
calls-Inv gathering p ws k v h = gather-Inv p ws v
calls-Inv collecting p ws k v h = collect-Inv p ws v
calls-Inv joining p ws k v h = v
calls-Inv gone p ws k v h = v
