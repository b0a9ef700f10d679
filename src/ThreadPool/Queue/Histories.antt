-- ===== src/ThreadPool/Queue/Histories.antt =====
-- common/sys/thread_pool.cpp: whole histories of the linked work queue, and its end in tpool_destroy.
use cpufb.Base.{
  ℕ, zero, suc, ◌≡◌, ◌≢◌, ◌≤◌, refl, sym, ap, subst, List, [], ◌∷◌, Option, none, some,
  if◌then◌else◌, arith, length, Bool-cases, inl, inr,
}
use cpufb.ThreadPool.Queue.{
  Ptr, Heap, write, Linked, unused, Event, Answer, happens, tpool_work_destroy, free_all,
}
use cpufb.ThreadPool.Queue.Nodes.{Cells, Chain, stop, node, has, items, frame-write}
use cpufb.ThreadPool.Queue.Refines.{
  Promise, nothing, promised, Comes, Refines, unused-Refines, Matches,
}
use cpufb.ThreadPool.Queue.Steps.{happens-Matches, held-out}

-- A history of the linked queue with its answers, the latest first.
pub data Replay : List Event → Linked → List Answer → Type 0 where
  fresh : Replay [] unused []
  after :
      {es : List Event} {c d : Linked} {seen : List Answer} {a : Answer} (e : Event)
      → Replay es c seen
      → Comes c e
      → happens c e ≡ some (d, a)
      → Replay (e ∷ es) d (a ∷ seen)

-- The same history of the list, and its answers.
unfoldable pub promise : List Event → Promise
unfolding nothing promised
promise [] = nothing
promise (e ∷ es) = (promised (promise es) e).0

unfoldable pub answers : List Event → List Answer
unfolding promise
answers [] = []
answers (e ∷ es) = (promised (promise es) e).1 ∷ answers es

Replay-Refines :
    {es : List Event} {c : Linked} {seen : List Answer}
    → Replay es c seen
    → (seen ≡ answers es) × Refines c (promise es)
unfolding promise answers Matches
Replay-Refines fresh = (refl, unused-Refines)
Replay-Refines (after {es} {c} {d} {seen} {a} e past comes happened) =
    let (same, r) = Replay-Refines past in
    let (d', does, r') = happens-Matches c (promise es) e r comes in
    let one : Path (Linked × Answer) (d', (promised (promise es) e).1) (d, a) =
      cc (does, happened) in
    (
      rw same (ap (λ x. x.1 ∷ answers es) (sym one)),
      subst (λ x. Refines x (promise (e ∷ es))) (ap (λ x. x.0) one) r',
    )

-- After any history of additions, takings and runs in which malloc answers with addresses that are
-- not in use and a worker takes only when it holds nothing: the answers so far are those of the
-- list; the linked queue stands for the list; and the next event, whichever it is, reads no pointer
-- that leads nowhere and answers as the list does.
pub linked_queue-Refines :
    (es : List Event) (c : Linked) (seen : List Answer)
    → Replay es c seen
    → (seen ≡ answers es)
      × Refines c (promise es)
      × ((e : Event)
          → Comes c e
          → (d : Linked) × (happens c e ≡ some (d, (promised (promise es) e).1)))
unfolding Matches
linked_queue-Refines es c seen past =
    let (same, r) = Replay-Refines past in
    (same, r, λ e comes. let m = happens-Matches c (promise es) e r comes in (m.0, m.1))

free_all-chain :
    (n : ℕ) (h : Heap) (first : Option Ptr) (cells : Cells)
    → Chain h first cells
    → length cells ≤ n
    → (g : Heap) × (free_all n h first ≡ some g)
      × ((a : Ptr) → g a ≡ (if has a cells then none else h a))
unfolding free_all tpool_work_destroy has write
free_all-chain n h first cells stop le = (h, refl, λ a. refl)
free_all-chain zero h first cells (node e out c) le = absurd (omega (arith, le))
free_all-chain (suc n) h first cells (node {p} {x} {next} {cells = rest} e out c) le =
    let k = write h p none in
    let (g, frees, left) =
      free_all-chain n k next rest (frame-write p none c out) (omega (arith, le)) in
    (g, rw e frees, λ a. ground (arith, left a))

length-items : (cells : Cells) → length (items cells) ≡ length cells
unfolding items
length-items [] = refl
length-items (cell ∷ cells) = ap suc (length-items cells)

-- The loop of tpool_destroy behind such a history, on fuel for the items of the queue: it reads no
-- pointer that leads nowhere, it frees every node that no worker holds, and it leaves the nodes that
-- workers hold as they are.
pub destroyed_queue_frees :
    (es : List Event) (c : Linked) (seen : List Answer) (n : ℕ)
    → Replay es c seen
    → length (promise es).queue ≤ n
    → (g : Heap) × (free_all n c.nodes c.work_first ≡ some g)
      × ((a : Ptr) → ((i : ℕ) → c.held i ≢ some a) → g a ≡ none)
      × ((i : ℕ) (p : Ptr) → c.held i ≡ some p → g p ≡ c.nodes p)
destroyed_queue_frees es c seen n past le =
    let (same, r) = Replay-Refines past in
    let (g, frees, left) =
      free_all-chain n c.nodes c.work_first r.cells r.chain
        (omega (arith, le, length-items r.cells, ap length r.listed)) in
    (
      g,
      frees,
      λ a u. elim (Bool-cases (has a r.cells)) [
        | inl e ↦ rw (left a, e) refl
        | inr e ↦ rw (left a, e) (r.owned a e u)
      ],
      λ i p e. rw (left p, held-out c (promise es) r i p e) refl,
    )
