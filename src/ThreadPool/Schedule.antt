-- ===== src/ThreadPool/Schedule.antt =====
-- Runs of the pool of common/sys/thread_pool.cpp along a written schedule.
use cpufb.Base.{
  length, ◌≤◌, ◌+◌, length-append, ℕ, zero, suc, ◌≡◌, List, [], ◌∷◌, ◌++◌, Option, none, some,
  arith, Option-cases, inl, inr,
}
use cpufb.ThreadPool.Machine.{
  Worker, Answers, section, Phase, booting, idle, armed, running, serving, served, exited,
}
use cpufb.ThreadPool.Counters.{both_seen, seen_in, step_seen, seen}
use cpufb.ThreadPool.Client.{
  System, Command, client_section, Step, works, calls, Reach, here, next, joins,
}

-- The next section of the worker at a position, or of the driving thread.
pub data Act : Type 0 where
  worker : ℕ → Answers → Act
  call : Command → Act

pick : ℕ → List Worker → Option (List Worker × Worker × List Worker)
pick n [] = none
pick zero (w ∷ ws) = some ([], w, ws)
pick (suc n) (w ∷ ws) = elim (pick n ws) [
  | none ↦ none
  | some (before, v, after) ↦ some (w ∷ before, v, after)
]

unfoldable pub act : System → Act → System
unfolding pick
act s (worker n a) = elim (pick n s.workers) [
  | none ↦ s
  | some (before, w, after) ↦ record s {
    pool = (section s.pool w a).0;
    workers = before ++ (section s.pool w a).1 ∷ after;
  }
]
act s (call k) = record s {
  pool = (client_section s.pool s.client k).0;
  client = (client_section s.pool s.client k).1;
}

unfoldable pub acts : System → List Act → System
unfolding act
acts s [] = s
acts s (x ∷ xs) = acts (act s x) xs

pick-split :
    (n : ℕ) (ws before : List Worker) (w : Worker) (after : List Worker)
    → pick n ws ≡ some (before, w, after)
    → ws ≡ before ++ w ∷ after
unfolding pick
pick-split n [] before w after e = absurd (ground arith)
pick-split zero (v ∷ ws) before w after e = ground arith
pick-split (suc n) (v ∷ ws) before w after e = elim (Option-cases (pick n ws)) [
  | inl f ↦ absurd (ground arith)
  | inr ((b, u, c), f) ↦ ground (arith, pick-split n ws b u c f)
]

Reach-Step : {r s t : System} → Step r s → Reach s t → Reach r t
Reach-Step st here = next here st
Reach-Step st (next p last) = next (Reach-Step st p) last

both_seen-short : (cpu : ℕ) (before after : Option ℕ) → length (both_seen cpu before after) ≤ 1
both_seen-short cpu none after = omega arith
both_seen-short cpu (some b) none = omega arith
both_seen-short cpu (some b) (some a) = omega arith

seen_in-short : (f : Phase) (cpu : ℕ) (a : Answers) → length (seen_in f cpu a) ≤ 1
seen_in-short booting cpu a = omega arith
seen_in-short idle cpu a = omega arith
seen_in-short (armed j) cpu a = omega arith
seen_in-short (running j) cpu a = both_seen-short cpu a.before a.after
seen_in-short (serving none) cpu a = omega arith
seen_in-short (serving (some x)) cpu a = both_seen-short cpu a.before a.after
seen_in-short served cpu a = omega arith
seen_in-short exited cpu a = omega arith

step_seen-short : {s t : System} (st : Step s t) → length (step_seen st) ≤ 1
step_seen-short (works before w after a e) = seen_in-short w.phase w.cpu a
step_seen-short (calls k) = omega arith
step_seen-short (joins e all) = omega arith

-- A run in which no more than `n` jobs and items are seen.
abbrev pub Brief : ℕ → System → System → Type 0
Brief n s t = (r : Reach s t) × (length (seen r) ≤ n)

Step-Brief :
    {r s t : System} (st : Step r s) (p : Reach s t)
    → length (seen (Reach-Step st p)) ≤ 1 + length (seen p)
unfolding seen Reach-Step
Step-Brief st here = omega (arith, step_seen-short st, length-append (step_seen st) [])
Step-Brief st (next p last) = omega (
  arith,
  Step-Brief st p,
  length-append (step_seen last) (seen (Reach-Step st p)),
  length-append (step_seen last) (seen p),
)

more-Brief : {r s t : System} (n : ℕ) (st : Step r s) → Brief n s t → Brief (suc n) r t
more-Brief n st b = (Reach-Step st b.0, omega (arith, Step-Brief st b.0, b.1))

act-Brief : (s t : System) (x : Act) (n : ℕ) → Brief n (act s x) t → Brief (suc n) s t
unfolding act
act-Brief s t (call k) n b = more-Brief n (calls k) b
act-Brief s t (worker k a) n b = elim (Option-cases (pick k s.workers)) [
  | inl e ↦ let (r, h) = rw (e, act) at b in (r, omega (arith, h))
  | inr ((before, w, after), e) ↦
      more-Brief n (works before w after a (pick-split k s.workers before w after e))
        (rw (e, act) at b)
]

-- What a schedule leads to can be reached, and no more is seen than the schedule has entries.
pub acts-Brief : (s : System) (xs : List Act) → Brief (length xs) s (acts s xs)
unfolding acts seen
acts-Brief s [] = (here, omega arith)
acts-Brief s (x ∷ xs) = act-Brief s _ x (length xs) (acts-Brief (act s x) xs)

pub acts-Reach : (s : System) (xs : List Act) → Reach s (acts s xs)
acts-Reach s xs = (acts-Brief s xs).0
