-- ===== src/ThreadPool/Barrier.antt =====
-- common/sys/thread_pool.cpp: what holds in every state that the pool can reach from tpool_create.
use cpufb.Base.{
  ℕ, suc, ◌≤◌, ◌<◌, ◌≡◌, refl, ap, List, [], ◌∷◌, map, arith, All, length, some, subst, max_u64,
}
use mathlib.Core.Option.{some-injective}
use cpufb.ThreadPool.Machine.{
  Pool, Worker, Job, Phase, booting, idle, armed, running, serving, exited, section, Answers,
}
use cpufb.ThreadPool.Client.{
  Client, creating, outside, draining, drained, gathering, collecting, joining, gone, System,
  Command, add_work, wait, run_all, destroy, client_section, create, initial, fresh, Step, works,
  calls, joins, Reach, here, next,
}
use cpufb.ThreadPool.Invariant.{working_of, alive_of, booted_of, tally, WorkerIn, Inv}
use cpufb.ThreadPool.Preserved.{works-Inv}
use cpufb.ThreadPool.Calls.{calls-Inv}

length-fresh : (cpus : List ℕ) → length (map fresh cpus) ≡ length cpus
length-fresh [] = refl
length-fresh (c ∷ cpus) = ap suc (length-fresh cpus)

tally-fresh : (f : Phase → ℕ) (cpus : List ℕ) → f booting ≡ 0 → tally f (map fresh cpus) ≡ 0
tally-fresh f [] h = refl
tally-fresh f (c ∷ cpus) h = omega (arith, tally-fresh f cpus h)

alive-fresh : (cpus : List ℕ) → tally alive_of (map fresh cpus) ≡ length cpus
alive-fresh [] = refl
alive-fresh (c ∷ cpus) = omega (arith, alive-fresh cpus)

fresh-Settled :
    (cpus : List ℕ) (j : Job) → All (λ w. WorkerIn creating w.phase 0 [] j w) (map fresh cpus)
fresh-Settled [] j = tt
fresh-Settled (c ∷ cpus) j = ((refl, refl), fresh-Settled cpus j)

start-Inv :
    (cpus : List ℕ)
    → Inv (record { pool = initial (length cpus); workers = map fresh cpus; client = creating })
unfolding initial
start-Inv cpus = record {
  size = length-fresh cpus;
  working = tally-fresh working_of cpus refl;
  alive = alive-fresh cpus;
  generation = refl;
  workers = fresh-Settled cpus 0;
  pool = (refl, refl, refl, tally-fresh booted_of cpus refl);
}

create-Inv : (cpus : List ℕ) {s : System} → create cpus ≡ some s → Inv s
unfolding create
create-Inv [] e = absurd (ground arith)
create-Inv (c ∷ cpus) e = subst Inv (some-injective _ _ e) (start-Inv (c ∷ cpus))

-- The history of published jobs grows.
section-jobs :
    (p : Pool) (ph : Phase) (cpu o : ℕ) (r : List Job) (a : Answers)
    → (section p (record { cpu = cpu; phase = ph; observed = o; runs = r }) a).0.jobs ≡ p.jobs
unfolding section
section-jobs p booting cpu o r a = refl
section-jobs p idle cpu o r a = ground arith
section-jobs p (armed j) cpu o r a = ground arith
section-jobs p (running j) cpu o r a = ground arith
section-jobs p (serving x) cpu o r a = ground arith
section-jobs p _ cpu o r a = refl

client_section-jobs :
    (p : Pool) (c : Client) (k : Command) → length p.jobs ≤ length (client_section p c k).0.jobs
unfolding client_section
client_section-jobs p creating k = ground arith
client_section-jobs p outside (add_work x) = omega arith
client_section-jobs p outside wait = omega arith
client_section-jobs p outside (run_all j) = omega arith
client_section-jobs p outside destroy = omega arith
client_section-jobs p (draining j) k = ground arith
client_section-jobs p (drained j) k = ground arith
client_section-jobs p gathering k = ground arith
client_section-jobs p collecting k = ground arith
client_section-jobs p _ k = omega arith

Step-jobs : {s t : System} → Step s t → length s.pool.jobs ≤ length t.pool.jobs
Step-jobs {s} (works before w after a e) =
    omega (arith, ap length (section-jobs s.pool w.phase w.cpu w.observed w.runs a))
Step-jobs {s} (calls k) = client_section-jobs s.pool s.client k
Step-jobs (joins e h) = omega arith

exited_gone :
    (c : Client) (p : Pool) (ws : List Worker)
    → c ≡ joining
    → All (λ w. w.phase ≡ exited) ws
    → Inv (record { pool = p; workers = ws; client = c })
    → Inv (record { pool = p; workers = ws; client = gone })
exited_gone joining p ws e h v = record {
  size = v.size;
  working = v.working;
  alive = v.alive;
  generation = v.generation;
  workers = h;
  pool = v.pool;
}
exited_gone _ p ws e h v = absurd (ground arith)

Step-Inv : {s t : System} → Step s t → length s.pool.jobs < max_u64 → Inv s → Inv t
Step-Inv {s} (works before w after a e) h v = works-Inv s before w after a e v
Step-Inv {s} (calls k) h v = calls-Inv s.client s.pool s.workers k v h
Step-Inv {s} (joins e all) h v = exited_gone s.client s.pool s.workers e all v

-- Every state that the pool reaches before 2 ^ 64 - 1 jobs were published has the invariant.
pub Reach-Inv :
    (cpus : List ℕ) {s t : System}
    → create cpus ≡ some s
    → Reach s t
    → length t.pool.jobs < max_u64
    → Inv t
Reach-Inv cpus c here h = create-Inv cpus c
Reach-Inv cpus c (next r st) h =
    let fewer = Step-jobs st in Step-Inv st (omega arith) (Reach-Inv cpus c r (omega arith))
