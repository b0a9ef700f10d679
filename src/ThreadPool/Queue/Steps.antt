-- ===== src/ThreadPool/Queue/Steps.antt =====
-- common/sys/thread_pool.cpp: the operations of the linked work queue, one by one, against the list.
use cpufb.Base.{
  ℕ, ◌≡◌, refl, sym, ap, subst, ◌∙◌, Bool-cases, Option-cases, inl, inr, [], ◌∷◌, ◌++◌, Option,
  none, some, false, ◌||◌, ◌==◌, arith,
}
use cpufb.ThreadPool.Machine.{Work}
use cpufb.ThreadPool.Queue.{
  Ptr, Node, Heap, write, Linked, unused, Event, adds, gets, finishes, link, unlink, finish,
  set_held, tpool_work_create, tpool_add_work, tpool_work_get, tpool_work_destroy, happens,
}
use cpufb.ThreadPool.Queue.Nodes.{
  Cells, Chain, stop, node, has, items, last_of, items-append, has-append, last_of-append,
  frame-write, hang,
}
use cpufb.ThreadPool.Queue.Refines.{
  Promise, set_taken, promised, Comes, Holds, Refines, Matches, Holds-frame,
}

-- An item that is hung in where the queue is empty, and where it is not.
adds-first :
    (c : Linked) (s : Promise) (r : Refines c s) (x : Work) (p : Ptr)
    → c.nodes p ≡ none
    → c.work_first ≡ none
    → r.cells ≡ []
    → Matches c s (adds (some x) p)
unfolding Matches happens tpool_add_work tpool_work_create link promised write has items last_of
adds-first c s r x p unused e f =
    let h = write c.nodes p (some (record { work = x; next = none })) in
    (
      record c { nodes = h; work_first = some p; work_last = some p },
      rw e refl,
      record {
        cells = (p, x) ∷ [];
        chain = node (ground arith) refl stop;
        ends = refl;
        listed = rw (sym r.listed, f) refl;
        holds = λ i.
            Holds-frame c.nodes h r.cells _ (c.held i) (s.taken i)
              (λ a n w o at. (ground arith, ground arith)) (r.holds i);
        own = r.own;
        owned = λ a out free. ground (arith, r.owned a (rw f refl) free);
      },
    )

adds-last :
    (c : Linked) (s : Promise) (r : Refines c s) (x : Work) (p l f : Ptr)
    → c.nodes p ≡ none
    → c.work_first ≡ some f
    → c.work_last ≡ some l
    → Matches c s (adds (some x) p)
unfolding Matches happens tpool_add_work tpool_work_create link promised items
adds-last c s r x p l f unused e m =
    let (g, linked, chain, same) =
      hang c.nodes c.work_first r.cells l p x r.chain (r.ends ∙ m) unused in
    let outside : (a : Ptr) (n : Node)
        → has a r.cells ≡ false
        → c.nodes a ≡ some n
        → has a (r.cells ++ (p, x) ∷ []) ≡ false =
      λ a n o at. ground (arith, has-append a p x r.cells) in
    (
      record c { nodes = g; work_last = some p },
      rw (e, m, linked) refl,
      record {
        cells = r.cells ++ (p, x) ∷ [];
        chain = chain;
        ends = last_of-append p x r.cells;
        listed = rw (items-append, r.listed) refl;
        holds = λ i.
            Holds-frame c.nodes g r.cells (r.cells ++ (p, x) ∷ []) (c.held i) (s.taken i)
              (λ a n w o at. (same a (outside a n o at) ∙ at, outside a n o at)) (r.holds i);
        own = r.own;
        owned =
            λ a out free. same a out ∙ r.owned a (ground (arith, has-append a p x r.cells)) free;
      },
    )

-- What a chain begins with.
data Start (h : Heap) : Option Ptr → Cells → Type 0 where
  empty : Start h none []
  begins :
      (p : Ptr) (x : Work) (next : Option Ptr) (rest : Cells)
      → h p ≡ some (record { work = x; next = next })
      → has p rest ≡ false
      → Chain h next rest
      → Start h (some p) ((p, x) ∷ rest)

start : (h : Heap) (first : Option Ptr) (cells : Cells) → Chain h first cells → Start h first cells
start h first cells stop = empty
start h first cells (node {p} {x} {next} {cells = rest} e out c) = begins p x next rest e out c

last_of-some : (cell : Ptr × Work) (cells : Cells) → (l : Ptr) × (last_of (cell ∷ cells) ≡ some l)
unfolding last_of
last_of-some cell [] = (cell.0, refl)
last_of-some cell (next ∷ cells) = last_of-some next cells

adds-start :
    (c : Linked) (s : Promise) (r : Refines c s) (x : Work) (p : Ptr)
    → c.nodes p ≡ none
    → (first : Option Ptr) (cells : Cells) → c.work_first ≡ first
    → r.cells ≡ cells
    → Start c.nodes first cells
    → Matches c s (adds (some x) p)
adds-start c s r x p unused first cells e f empty = adds-first c s r x p unused e f
adds-start c s r x p unused first cells e f (begins q y next rest at out chain) =
    let (l, ends) = last_of-some (q, y) rest in
    adds-last c s r x p l q unused e (sym r.ends ∙ ap last_of f ∙ ends)

pub held-out :
    (c : Linked) (s : Promise) (r : Refines c s) (i : ℕ) (p : Ptr)
    → c.held i ≡ some p
    → has p r.cells ≡ false
unfolding Holds
held-out c s r i p e = (subst (λ o. Holds c.nodes r.cells o (s.taken i)) e (r.holds i)).0

Holds-set :
    (h : Heap) (cells : Cells) (held : ℕ → Option Ptr) (taken : ℕ → Option Work) (i : ℕ)
    (p : Option Ptr) (x : Option Work)
    → Holds h cells p x
    → ((j : ℕ) → (j == i) ≡ false → Holds h cells (held j) (taken j))
    → (j : ℕ) → Holds h cells (set_held held i p j) (set_taken taken i x j)
unfolding set_held set_taken
Holds-set h cells held taken i p x new old j = elim (Bool-cases (j == i)) [
  | inl e ↦ rw e new
  | inr e ↦ rw e (old j e)
]

-- What is left when worker `i` took the first node.
takes-Refines :
    (c : Linked) (s : Promise) (r : Refines c s) (i : ℕ)
    → c.held i ≡ none
    → (p : Ptr) (x : Work) (next l : Option Ptr) (rest : Cells) → r.cells ≡ (p, x) ∷ rest
    → c.nodes p ≡ some (record { work = x; next = next })
    → has p rest ≡ false
    → Chain c.nodes next rest
    → last_of rest ≡ l
    → Refines
        (record {
          nodes = c.nodes;
          work_first = next;
          work_last = l;
          held = set_held c.held i (some p);
        })
        (record { queue = items rest; taken = set_taken s.taken i (some x) })
unfolding set_held has Holds
takes-Refines c s r i free p x next l rest f at out chain ends =
    let others : (a : Ptr) → has a r.cells ≡ (a == p || has a rest) = λ a. rw f refl in
    record {
      cells = rest;
      chain = chain;
      ends = ends;
      listed = refl;
      holds =
          Holds-set c.nodes rest c.held s.taken i (some p) (some x) (out, _, at, refl)
            (λ j e.
              Holds-frame c.nodes c.nodes r.cells rest (c.held j) (s.taken j)
                (λ a n w o at. (at, ground (arith, others a))) (r.holds j));
      own = λ j k q e g.
          ground (arith, others q, r.own j k q, held-out c s r j q, held-out c s r k q);
      owned =
          λ a o u. r.owned a (ground (arith, others a, u i)) (λ j e. u j (ground (arith, e, free)));
    }

-- A worker that holds nothing, told so again.
frees-Refines :
    (c : Linked) (s : Promise) (r : Refines c s) (i : ℕ)
    → c.held i ≡ none
    → Refines
        (record c { held = set_held c.held i none })
        (record s { taken = set_taken s.taken i none })
unfolding set_held Holds
frees-Refines c s r i free = record {
  cells = r.cells;
  chain = r.chain;
  ends = r.ends;
  listed = r.listed;
  holds = Holds-set c.nodes r.cells c.held s.taken i none none refl (λ j e. r.holds j);
  own = λ j k q e g. ground (arith, r.own j k q);
  owned = λ a o u. r.owned a o (λ j e. u j (ground (arith, e, free)));
}

ends_none : {h : Heap} (cells : Cells) → Chain h none cells → last_of cells ≡ none
unfolding last_of
ends_none cells stop = refl

ends_some :
    {h : Heap} (cell : Ptr × Work) (next : Ptr) (cells : Cells)
    → Chain h (some next) cells
    → last_of (cell ∷ cells) ≡ last_of cells
unfolding last_of
ends_some cell next cells (node e out c) = refl

-- A worker that takes from the queue.
gets-start :
    (c : Linked) (s : Promise) (r : Refines c s) (i : ℕ)
    → c.held i ≡ none
    → (first : Option Ptr) (cells : Cells) → c.work_first ≡ first
    → r.cells ≡ cells
    → Start c.nodes first cells
    → Matches c s (gets i)
unfolding Matches happens tpool_work_get unlink promised items set_held set_taken
gets-start c s r i free first cells e f empty = (
  record c { held = set_held c.held i none },
  rw e (rw (sym r.listed, f) refl),
  subst (Refines (record c { held = set_held c.held i none })) (rw (sym r.listed, f) refl)
      (frees-Refines c s r i free),
)
gets-start c s r i free first cells e f (begins p x none rest at out chain) = (
  record (unlink c none) { held = set_held c.held i (some p) },
  rw (sym r.listed, f, e, at) refl,
  rw (sym r.listed, f)
      (takes-Refines c s r i free p x none none rest f at out chain (ends_none rest chain)),
)
gets-start c s r i free first cells e f (begins p x (some next) rest at out chain) = (
  record (unlink c (some next)) { held = set_held c.held i (some p) },
  rw (sym r.listed, f, e, at) refl,
  rw (sym r.listed, f)
      (takes-Refines c s r i free p x (some next) c.work_last rest f at out chain
        (sym (ends_some (p, x) next rest chain) ∙ sym (ap last_of f) ∙ r.ends)),
)

-- What is left when worker `i` ran and destroyed the item of `p`.
runs-Refines :
    (c : Linked) (s : Promise) (r : Refines c s) (i : ℕ) (p : Ptr)
    → c.held i ≡ some p
    → Refines
        (record c { nodes = write c.nodes p none; held = set_held c.held i none })
        (record s { taken = set_taken s.taken i none })
unfolding set_held Holds write
runs-Refines c s r i p e =
    let out = held-out c s r i p e in
    let h = write c.nodes p none in
    record {
      cells = r.cells;
      chain = frame-write p none r.chain out;
      ends = r.ends;
      listed = r.listed;
      holds = Holds-set h r.cells c.held s.taken i none none refl (λ j n.
          Holds-frame c.nodes h r.cells r.cells (c.held j) (s.taken j)
            (λ a n' w o at. (ground (arith, r.own i j p, e), o)) (r.holds j));
      own = λ j k q e g. ground (arith, r.own j k q);
      owned = λ a o u. elim (Bool-cases (a == p)) [
        | inl t ↦ rw t refl
        | inr t ↦ rw t (r.owned a o (λ j f. u j (ground (arith, f, e))))
      ];
    }

finishes-item : (c : Linked) (s : Promise) (r : Refines c s) (i : ℕ) → Matches c s (finishes i)
unfolding Matches happens finish promised Holds tpool_work_destroy
finishes-item c s r i = elim (Option-cases (c.held i)) [
  | inl e ↦
      let taken : s.taken i ≡ none =
        subst (λ o. Holds c.nodes r.cells o (s.taken i)) e (r.holds i) in
      (_, rw (e, taken) refl, frees-Refines c s r i e)
  | inr (p, e) ↦
      let (out, n, at, taken) = subst (λ o. Holds c.nodes r.cells o (s.taken i)) e (r.holds i) in
      (_, rw (e, taken, at) refl, runs-Refines c s r i p e)
]

-- Every event that can come is one that the linked queue stands, and that does what the list does.
pub happens-Matches :
    (c : Linked) (s : Promise) (e : Event) → Refines c s → Comes c e → Matches c s e
unfolding Comes Matches happens promised tpool_add_work tpool_work_create
happens-Matches c s (adds none p) r h = (c, refl, r)
happens-Matches c s (adds (some x) p) r h =
    adds-start c s r x p h c.work_first r.cells refl refl (start _ _ _ r.chain)
happens-Matches c s (gets i) r h =
    gets-start c s r i h c.work_first r.cells refl refl (start _ _ _ r.chain)
happens-Matches c s (finishes i) r h = finishes-item c s r i
