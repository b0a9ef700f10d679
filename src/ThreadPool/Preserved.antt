-- ===== src/ThreadPool/Preserved.antt =====
-- common/sys/thread_pool.cpp: the invariant and the sections of a worker.
use cpufb.Base.{
  ◌+◌, ◌≡◌, sym, ◌∙◌, ap, List, [], ◌∷◌, ◌++◌, arith, All, length, length-append, subst,
}
use cpufb.ThreadPool.Machine.{Pool, Worker, Answers, section}
use cpufb.ThreadPool.Client.{Client, System}
use cpufb.ThreadPool.Invariant.{
  working_of, alive_of, booted_of, armed_of, rested_of, tally, WorkerOk, PoolOk, Inv,
}
use cpufb.ThreadPool.Tally.{tally_at, All-split, All-join}
use cpufb.ThreadPool.Sections.{Kept, section-Kept, section-Good}

-- What is said of the other workers names only fields of the pool that a section keeps.
WorkerOk-Kept :
    (c : Client) (p q : Pool) (w v : Worker) (x : Worker)
    → Kept p w q v
    → WorkerOk c p x
    → WorkerOk c q x
WorkerOk-Kept c p q w v x k h = rw (k.generation, k.jobs, k.job) h

All-Kept :
    (c : Client) (p q : Pool) (w v : Worker) (xs : List Worker)
    → Kept p w q v
    → All (WorkerOk c p) xs
    → All (WorkerOk c q) xs
All-Kept c p q w v [] k h = tt
All-Kept c p q w v (x ∷ xs) k h = (WorkerOk-Kept c p q w v x k h.0, All-Kept c p q w v xs k h.1)

-- A section of a worker.
pub works-Inv :
    (s : System) (before : List Worker) (w : Worker) (after : List Worker) (a : Answers)
    → s.workers ≡ before ++ w ∷ after
    → Inv s
    → Inv (record {
      pool = (section s.pool w a).0;
      workers = before ++ (section s.pool w a).1 ∷ after;
      client = s.client;
    })
works-Inv s before w after a e v =
    let p = s.pool in
    let q = (section s.pool w a).0 in
    let u = (section s.pool w a).1 in
    let working =
      sym (tally_at working_of before w after) ∙ sym (ap (tally working_of) e) ∙ v.working in
    let alive = sym (tally_at alive_of before w after) ∙ sym (ap (tally alive_of) e) ∙ v.alive in
    let k =
      section-Kept p w.phase w.cpu w.observed w.runs a (omega (arith, working))
        (omega (arith, alive)) in
    let parts =
      All-split (WorkerOk s.client p) before w after
        (subst (All (WorkerOk s.client p)) e v.workers) in
    let pool : PoolOk s.client p (before ++ w ∷ after) = subst (PoolOk s.client p) e v.pool in
    let good =
      section-Good s.client p w.phase w.cpu w.observed w.runs a
        (tally booted_of before + tally booted_of after)
        (tally armed_of before + tally armed_of after)
        (tally rested_of before + tally rested_of after)
        (
          parts.1,
          rw
              (
                tally_at booted_of before w after,
                tally_at armed_of before w after,
                tally_at rested_of before w after,
              )
              at pool,
        ) in
    record {
      size = omega (
        arith,
        length-append before (u ∷ after),
        length-append before (w ∷ after),
        ap length e,
        v.size,
        k.thread_num,
      );
      working = omega (arith, tally_at working_of before u after, working, k.working);
      alive = omega (arith, tally_at alive_of before u after, alive, k.alive);
      generation = k.generation ∙ v.generation ∙ ap length (sym k.jobs);
      workers =
          All-join (WorkerOk s.client q) before u after (All-Kept s.client p q w u before k parts.0)
            good.0 (All-Kept s.client p q w u after k parts.2);
      pool =
          rw
            (
              tally_at booted_of before u after,
              tally_at armed_of before u after,
              tally_at rested_of before u after,
            )
            good.1;
    }
