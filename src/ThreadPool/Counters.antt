-- ===== src/ThreadPool/Counters.antt =====
-- common/sys/thread_pool.cpp: the three counters of record_cpu_observation.
use cpufb.Base.{
  ◌<◌, ◌++◌, ◌^◌, ◌≢◌, ◌⊎◌, ◌↔◌, ◌+◌, ◌||◌, ◌==◌, not, if◌then◌else◌, length, u64, ℕ, ◌≡◌, ◌≤◌,
  List, [], ◌∷◌, Option, some, none, Bool, arith,
}
use cpufb.ThreadPool.Machine.{
  Pool, Worker, Phase, booting, idle, armed, running, serving, served, exited, Answers,
  record_cpu_observation, boot, leave, take_work, loop_head, barrier, job_done, work_done,
  count_out, section_in, section,
}
use cpufb.ThreadPool.Client.{
  Client, creating, outside, draining, drained, gathering, collecting, joining, gone, Command,
  add_work, wait, run_all, destroy, System, initial, create, created, shut_down, add, drain,
  publish, gather, collect, client_section, Step, works, calls, joins, Reach, here, next,
}

-- What is seen of the CPU around a job or an item of the queue: the CPU of the worker, and the ones on
-- which it ran before and after.
pub record Seen : Type 0 where
  pub cpu : ℕ
  pub before : ℕ
  pub after : ℕ

abbrev pub both_seen : ℕ → Option ℕ → Option ℕ → List Seen
both_seen cpu none after = []
both_seen cpu (some before) none = []
both_seen cpu (some before) (some after) = record { cpu = cpu; before = before; after = after } ∷ []

-- A worker that ends a job, or an item of the queue, is seen, if both CPUs are known.
abbrev pub seen_in : Phase → ℕ → Answers → List Seen
seen_in booting cpu a = []
seen_in idle cpu a = []
seen_in (armed j) cpu a = []
seen_in (running j) cpu a = both_seen cpu a.before a.after
seen_in (serving none) cpu a = []
seen_in (serving (some x)) cpu a = both_seen cpu a.before a.after
seen_in served cpu a = []
seen_in exited cpu a = []

abbrev pub step_seen : {s t : System} → Step s t → List Seen
step_seen (works before w after a e) = seen_in w.phase w.cpu a
step_seen (calls k) = []
step_seen (joins e all) = []

-- What is seen in a run, the last first.
unfoldable pub seen : {s t : System} → Reach s t → List Seen
seen here = []
seen (next r st) = step_seen st ++ seen r

-- The worker was seen on another CPU than its own.
abbrev pub Elsewhere : Seen → Type 0
Elsewhere o = (o.before ≢ o.cpu) ⊎ (o.after ≢ o.cpu)

abbrev pub Somewhere : List Seen → Type 0
Somewhere [] = ⊥
Somewhere (o ∷ os) = Elsewhere o ⊎ Somewhere os

strays : List Seen → ℕ
strays [] = 0
strays (o ∷ os) = strays os + (if not (o.before == o.cpu) || not (o.after == o.cpu) then 1 else 0)

moves : List Seen → ℕ
moves [] = 0
moves (o ∷ os) = moves os + (if o.before == o.after then 0 else 1)

-- The counters are the numbers of what was seen, with their wrap-around.
record IsCounted (p : Pool) (os : List Seen) : Type 0 where
  observed : p.cpu_observation_cnt ≡ u64 (length os)
  migrated : p.cpu_migration_cnt ≡ u64 (moves os)
  mismatched : p.cpu_mismatch_cnt ≡ u64 (strays os)

observation-IsCounted :
    (p : Pool) (cpu : ℕ) (pinned : Bool) (before after : Option ℕ) (os : List Seen)
    → IsCounted p os
    → IsCounted
        (record_cpu_observation p cpu (record { pinned = pinned; before = before; after = after }))
        (both_seen cpu before after ++ os)
unfolding record_cpu_observation strays moves
observation-IsCounted p cpu pinned none after os v = record {
  observed = v.observed;
  migrated = v.migrated;
  mismatched = v.mismatched;
}
observation-IsCounted p cpu pinned (some b) none os v = record {
  observed = v.observed;
  migrated = v.migrated;
  mismatched = v.mismatched;
}
observation-IsCounted p cpu pinned (some b) (some a) os v = record {
  observed = omega (arith, v.observed);
  migrated = omega (arith, v.migrated);
  mismatched = omega (arith, v.mismatched);
}

section_in-IsCounted :
    (p : Pool) (w : Worker) (f : Phase) (a : Answers) (os : List Seen)
    → IsCounted p os
    → IsCounted (section_in f p w a).0 (seen_in f w.cpu a ++ os)
unfolding section_in boot leave take_work loop_head barrier job_done work_done count_out
section_in-IsCounted p w booting a os v = record {
  observed = v.observed;
  migrated = v.migrated;
  mismatched = v.mismatched;
}
section_in-IsCounted p w idle a os v = ground arith
section_in-IsCounted p w (armed j) a os v = ground arith
section_in-IsCounted p w (running j) a os v =
    let c = observation-IsCounted p w.cpu a.pinned a.before a.after os v in
    record { observed = c.observed; migrated = c.migrated; mismatched = c.mismatched }
section_in-IsCounted p w (serving none) a os v = v
section_in-IsCounted p w (serving (some x)) a os v =
    let c = observation-IsCounted p w.cpu a.pinned a.before a.after os v in
    record { observed = c.observed; migrated = c.migrated; mismatched = c.mismatched }
section_in-IsCounted p w served a os v = record {
  observed = v.observed;
  migrated = v.migrated;
  mismatched = v.mismatched;
}
section_in-IsCounted p w exited a os v = v

client_section-IsCounted :
    (p : Pool) (c : Client) (k : Command) (os : List Seen)
    → IsCounted p os
    → IsCounted (client_section p c k).0 os
unfolding client_section created shut_down add drain publish gather collect
client_section-IsCounted p creating k os v = ground arith
client_section-IsCounted p outside (add_work x) os v = record {
  observed = v.observed;
  migrated = v.migrated;
  mismatched = v.mismatched;
}
client_section-IsCounted p outside wait os v = v
client_section-IsCounted p outside (run_all j) os v = v
client_section-IsCounted p outside destroy os v = record {
  observed = v.observed;
  migrated = v.migrated;
  mismatched = v.mismatched;
}
client_section-IsCounted p (draining j) k os v = ground arith
client_section-IsCounted p (drained j) k os v = ground arith
client_section-IsCounted p gathering k os v = ground arith
client_section-IsCounted p collecting k os v = ground arith
client_section-IsCounted p joining k os v = v
client_section-IsCounted p gone k os v = v

Step-IsCounted :
    {s t : System} (st : Step s t) (os : List Seen)
    → IsCounted s.pool os
    → IsCounted t.pool (step_seen st ++ os)
unfolding section
Step-IsCounted {s} (works before w after a e) os v = section_in-IsCounted s.pool w w.phase a os v
Step-IsCounted {s} (calls k) os v = client_section-IsCounted s.pool s.client k os v
Step-IsCounted (joins e all) os v = v

create-IsCounted : (cpus : List ℕ) (s : System) → create cpus ≡ some s → IsCounted s.pool []
unfolding create initial strays moves
create-IsCounted [] s e = cc
create-IsCounted (c ∷ cpus) s e = ground arith

Reach-IsCounted :
    (cpus : List ℕ) {s t : System}
    → create cpus ≡ some s
    → (r : Reach s t) → IsCounted t.pool (seen r)
unfolding seen
Reach-IsCounted cpus {s} c here = create-IsCounted cpus s c
Reach-IsCounted cpus c (next r st) = Step-IsCounted st (seen r) (Reach-IsCounted cpus c r)

-- Who moved was not on its own CPU all the time.
moves-strays : (os : List Seen) → (moves os ≤ strays os) × (strays os ≤ length os)
unfolding moves strays
moves-strays [] = (omega arith, omega arith)
moves-strays (o ∷ os) = let m = moves-strays os in (ground arith, ground arith)

strays-Somewhere : (os : List Seen) → (0 < strays os) ↔ Somewhere os
unfolding strays
strays-Somewhere [] = ground arith
strays-Somewhere (o ∷ os) = ground (arith, strays-Somewhere os)

-- In a run from tpool_create in which fewer than 2^64 jobs and items are seen, the counters are exact:
-- there are observations and mismatches exactly if there is a worker that was seen elsewhere, and no
-- migration without one.
pub Reach-strays :
    (cpus : List ℕ) {s t : System}
    → create cpus ≡ some s
    → (r : Reach s t) → length (seen r) < 2 ^ 64
    → (t.pool.cpu_migration_cnt ≤ t.pool.cpu_mismatch_cnt)
      × (t.pool.cpu_mismatch_cnt ≤ t.pool.cpu_observation_cnt)
      × ((0 < t.pool.cpu_mismatch_cnt) ↔ Somewhere (seen r))
Reach-strays cpus {t = t} c r h =
    let v = Reach-IsCounted cpus c r in
    let m = moves-strays (seen r) in
    let exact : t.pool.cpu_mismatch_cnt ≡ strays (seen r) = omega (arith, v.mismatched, m.1, h) in
    (
      omega (arith, v.mismatched, v.migrated, m.0, m.1, h),
      omega (arith, v.mismatched, v.observed, m.1, h),
      rw exact (strays-Somewhere (seen r)),
    )
