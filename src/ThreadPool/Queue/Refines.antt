-- ===== src/ThreadPool/Queue/Refines.antt =====
-- common/sys/thread_pool.cpp: the linked work queue against a list.
use cpufb.Base.{
  ℕ, ◌≡◌, ◌≢◌, refl, List, [], ◌∷◌, ◌++◌, Option, none, some, true, false, ◌==◌, if◌then◌else◌,
}
use cpufb.ThreadPool.Machine.{Work}
use cpufb.ThreadPool.Queue.{
  Ptr, Node, Heap, Linked, unused, Event, adds, gets, finishes, Answer, added, took, ran, happens,
}
use cpufb.ThreadPool.Queue.Nodes.{Cells, Chain, stop, has, items, last_of}

-- What the pool promises: a list of items, oldest first, and the item that each worker took.
pub record Promise : Type 0 where
  pub queue : List Work
  pub taken : ℕ → Option Work

unfoldable pub nothing : Promise
nothing = record { queue = []; taken = λ i. none }

unfoldable pub set_taken : (ℕ → Option Work) → ℕ → Option Work → ℕ → Option Work
set_taken taken i x j = if j == i then x else taken j

unfoldable pub promised : Promise → Event → Promise × Answer
unfolding set_taken
promised s (adds none p) = (s, added false)
promised s (adds (some x) p) = (record s { queue = s.queue ++ x ∷ [] }, added true)
promised s (gets i) = elim s.queue [
  | [] ↦ (record s { taken = set_taken s.taken i none }, took)
  | x ∷ rest ↦ (record { queue = rest; taken = set_taken s.taken i (some x) }, took)
]
promised s (finishes i) = (record s { taken = set_taken s.taken i none }, ran (s.taken i))

-- An event that can come next: malloc answers with an address that is not in use, and a worker takes
-- an item when it holds none.
unfoldable pub Comes : Linked → Event → Type 0
Comes c (adds func p) = c.nodes p ≡ none
Comes c (gets i) = c.held i ≡ none
Comes c (finishes i) = Unit

-- What a worker holds and what it took.
unfoldable pub Holds : Heap → Cells → Option Ptr → Option Work → Type 0
Holds h cells none x = x ≡ none
Holds h cells (some p) x = (has p cells ≡ false) × (n : Node) × (h p ≡ some n) × (x ≡ some n.work)

-- A linked queue stands for a list: a chain of its items that ends at work_last, workers that hold
-- the nodes of what they took, each its own, and no other node.
pub record Refines (c : Linked) (s : Promise) : Type 0 where
  pub cells : Cells
  pub chain : Chain c.nodes c.work_first cells
  pub ends : last_of cells ≡ c.work_last
  pub listed : items cells ≡ s.queue
  pub holds : (i : ℕ) → Holds c.nodes cells (c.held i) (s.taken i)
  pub own : (i j : ℕ) (p : Ptr) → c.held i ≡ some p → c.held j ≡ some p → i ≡ j
  pub owned : (a : Ptr) → has a cells ≡ false → ((i : ℕ) → c.held i ≢ some a) → c.nodes a ≡ none

pub unused-Refines : Refines unused nothing
unfolding unused nothing last_of items Holds
unused-Refines = record {
  cells = [];
  chain = stop;
  ends = refl;
  listed = refl;
  holds = λ i. refl;
  own = λ i j p e f. absurd cc;
  owned = λ a out free. refl;
}

-- A step of the linked queue that does what the list does.
unfoldable pub Matches : Linked → Promise → Event → Type 0
Matches c s e =
    (d : Linked) × (happens c e ≡ some (d, (promised s e).1)) × Refines d (promised s e).0

pub Holds-frame :
    (h g : Heap) (xs ys : Cells) (held : Option Ptr) (x : Option Work)
    → ((p : Ptr) (n : Node)
        → held ≡ some p
        → has p xs ≡ false
        → h p ≡ some n
        → (g p ≡ some n) × (has p ys ≡ false))
    → Holds h xs held x
    → Holds g ys held x
unfolding Holds
Holds-frame h g xs ys none x kept v = v
Holds-frame h g xs ys (some p) x kept (o, n, e, f) = let k = kept p n refl o e in (k.1, n, k.0, f)
