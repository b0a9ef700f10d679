-- ===== src/ThreadPool/Queue.antt =====
-- common/sys/thread_pool.cpp: the work queue as the code keeps it, linked nodes on a heap.
pub mod Nodes
pub mod Refines
pub mod Steps
pub mod Histories
pub mod Tests
use cpufb.Base.{
  ℕ, zero, suc, List, Option, none, some, Bool, true, false, ◌==◌, if◌then◌else◌, ◌>>=◌,
}
use cpufb.ThreadPool.Machine.{Work}

abbrev pub Ptr : Type 0
Ptr = ℕ

-- tpool_work_t: its function and argument are the item; a null pointer is `none`.
pub record Node : Type 0 where
  pub work : Work
  pub next : Option Ptr

-- What lies at an address: nothing where no node is allocated.
abbrev pub Heap : Type 0
Heap = Ptr → Option Node

unfoldable pub write : Heap → Ptr → Option Node → Heap
write h p node a = if a == p then node else h a

-- The two fields of tpool_t, the heap, and the variable `work` of each worker.
pub record Linked : Type 0 where
  pub nodes : Heap
  pub work_first : Option Ptr
  pub work_last : Option Ptr
  pub held : ℕ → Option Ptr

-- A pool behind its creation.
unfoldable pub unused : Linked
unused = record { nodes = λ a. none; work_first = none; work_last = none; held = λ i. none }

-- tpool_work_create, where malloc answers with the address `p`.
unfoldable pub tpool_work_create : Heap → Ptr → Option Work → Option (Heap × Ptr)
unfolding write
tpool_work_create h p none = none
tpool_work_create h p (some x) = some (write h p (some (record { work = x; next = none })), p)

-- An assignment to `next`; `none` is a pointer that leads to no node.
unfoldable pub set_next : Heap → Ptr → Ptr → Option Heap
unfolding write
set_next h p q = do node ← h p; some (write h p (some (record node { next = some q })))

-- The two ways to hang a new node in.
unfoldable pub link : Linked → Heap → Ptr → Option Ptr → Option Linked
unfolding set_next
link c h p none = some (record c { nodes = h; work_first = some p; work_last = some p })
link c h p (some first) = do
  last ← c.work_last
  g ← set_next h last p
  some (record c { nodes = g; work_last = some p })

-- tpool_add_work with its answer. The outer `none` is a read through a pointer that leads nowhere.
unfoldable pub tpool_add_work : Linked → Ptr → Option Work → Option (Linked × Bool)
unfolding tpool_work_create link
tpool_add_work c p func = elim (tpool_work_create c.nodes p func) [
  | none ↦ some (c, false)
  | some (h, work) ↦ (do d ← link c h work c.work_first; some (d, true))
]

-- What tpool_work_get leaves, for the `next` of the node that it takes.
unfoldable pub unlink : Linked → Option Ptr → Linked
unlink c none = record c { work_first = none; work_last = none }
unlink c (some next) = record c { work_first = some next }

-- tpool_work_get.
unfoldable pub tpool_work_get : Linked → Option (Linked × Option Ptr)
unfolding unlink
tpool_work_get c = elim c.work_first [
  | none ↦ some (c, none)
  | some work ↦ (do node ← c.nodes work; some (unlink c node.next, some work))
]

-- tpool_work_destroy.
unfoldable pub tpool_work_destroy : Heap → Option Ptr → Heap
unfolding write
tpool_work_destroy h none = h
tpool_work_destroy h (some p) = write h p none

unfoldable pub set_held : (ℕ → Option Ptr) → ℕ → Option Ptr → ℕ → Option Ptr
set_held held i p j = if j == i then p else held j

-- What happens to the queue: a call of tpool_add_work, with the address from malloc; a worker takes
-- an item; a worker runs the item that it took, if any, and destroys it.
pub data Event : Type 0 where
  adds : Option Work → Ptr → Event
  gets finishes : ℕ → Event

-- What is seen of an event: the answer of tpool_add_work, or the item that was run.
pub data Answer : Type 0 where
  added : Bool → Answer
  took : Answer
  ran : Option Work → Answer

-- The item of a worker, run and destroyed; it holds nothing then.
unfoldable pub finish : Linked → ℕ → Option Ptr → Option (Linked × Answer)
unfolding tpool_work_destroy set_held
finish c i none = some (record c { held = set_held c.held i none }, ran none)
finish c i (some p) = do
  node ← c.nodes p
  let d = record c { nodes = tpool_work_destroy c.nodes (some p); held = set_held c.held i none }
  some (d, ran (some node.work))

unfoldable pub happens : Linked → Event → Option (Linked × Answer)
unfolding tpool_add_work tpool_work_get set_held finish
happens c (adds func p) = do (d, answer) ← tpool_add_work c p func; some (d, added answer)
happens c (gets i) = do
  (d, work) ← tpool_work_get c
  some (record d { held = set_held d.held i work }, took)
happens c (finishes i) = finish c i (c.held i)

-- The loop of tpool_destroy, on fuel. `none` is a pointer that leads nowhere, or the end of the
-- fuel.
unfoldable pub free_all : ℕ → Heap → Option Ptr → Option Heap
unfolding tpool_work_destroy
free_all n h none = some h
free_all zero h (some work) = none
free_all (suc n) h (some work) = do
  node ← h work
  free_all n (tpool_work_destroy h (some work)) node.next
