-- ===== src/ThreadPool/Queue/Nodes.antt =====
-- common/sys/thread_pool.cpp: chains of nodes.
use cpufb.Base.{
  ◌≡◌, refl, List, [], ◌∷◌, ◌++◌, Option, none, some, Bool, true, false, ◌||◌, ◌==◌, arith,
}
use cpufb.ThreadPool.Machine.{Work}
use cpufb.ThreadPool.Queue.{Ptr, Node, Heap, write, set_next}

abbrev pub Cells : Type 0
Cells = List (Ptr × Work)

unfoldable pub has : Ptr → Cells → Bool
has a [] = false
has a (cell ∷ cells) = a == cell.0 || has a cells

unfoldable pub items : Cells → List Work
items [] = []
items (cell ∷ cells) = cell.1 ∷ items cells

unfoldable pub last_of : Cells → Option Ptr
last_of [] = none
last_of (cell ∷ []) = some cell.0
last_of (cell ∷ next ∷ cells) = last_of (next ∷ cells)

-- From `first` the `next` pointers lead through the distinct nodes of the cells to null.
pub data Chain (h : Heap) : Option Ptr → Cells → Type 0 where
  stop : Chain h none []
  node :
      {p : Ptr} {x : Work} {next : Option Ptr} {cells : Cells}
      → h p ≡ some (record { work = x; next = next })
      → has p cells ≡ false
      → Chain h next cells
      → Chain h (some p) ((p, x) ∷ cells)

pub items-append : (xs ys : Cells) → items (xs ++ ys) ≡ items xs ++ items ys
unfolding items
items-append [] ys = refl
items-append (x ∷ xs) ys = rw (items-append xs ys)

pub has-append :
    (a p : Ptr) (x : Work) (xs : Cells) → has a (xs ++ (p, x) ∷ []) ≡ (has a xs || a == p)
unfolding has
has-append a p x [] = ground arith
has-append a p x (y ∷ xs) = ground (arith, has-append a p x xs)

pub last_of-append : (p : Ptr) (x : Work) (xs : Cells) → last_of (xs ++ (p, x) ∷ []) ≡ some p
unfolding last_of
last_of-append p x [] = refl
last_of-append p x (y ∷ []) = refl
last_of-append p x (y ∷ z ∷ xs) = last_of-append p x (z ∷ xs)

last_of-has : (l : Ptr) (cells : Cells) → last_of cells ≡ some l → has l cells ≡ true
unfolding last_of has
last_of-has l [] e = cc
last_of-has l (y ∷ []) e = ground arith
last_of-has l (y ∷ z ∷ cells) e = ground (arith, last_of-has l (z ∷ cells) e)

module _ {h : Heap} where
  -- A chain survives any change that spares its own addresses.
  pub frame :
      {g : Heap} {first : Option Ptr} {cells : Cells}
      → Chain h first cells
      → ((a : Ptr) → has a cells ≡ true → g a ≡ h a)
      → Chain g first cells
  unfolding has
  frame stop same = stop
  frame (node {p} e out c) same =
      node (ground (arith, same p)) out (frame c λ a i. same a (ground arith))

  pub frame-write :
      {first : Option Ptr} {cells : Cells} (a : Ptr) (n : Option Node)
      → Chain h first cells
      → has a cells ≡ false
      → Chain (write h a n) first cells
  unfolding write
  frame-write a n c out = frame c (ground arith)

  pub not-has_of_none :
      {first : Option Ptr} {cells : Cells} (a : Ptr)
      → Chain h first cells
      → h a ≡ none
      → has a cells ≡ false
  unfolding has
  not-has_of_none a stop unused = refl
  not-has_of_none a (node e out c) unused = ground (arith, not-has_of_none a c unused)

  last-node :
      {first : Option Ptr} {cells : Cells} (l : Ptr)
      → Chain h first cells
      → last_of cells ≡ some l
      → (y : Work) × (h l ≡ some (record { work = y; next = none }))
  unfolding last_of
  last-node l stop e = absurd cc
  last-node l (node {x} e out stop) f = (x, ground (arith, e, f))
  last-node l (node e out (node e' out' c)) f = last-node l (node e' out' c) f

  module _ (g : Heap) (l p : Ptr) (x y : Work)
      (at_last : h l ≡ some (record { work = y; next = none }))
      (new_last : g l ≡ some (record { work = y; next = some p }))
      (new : g p ≡ some (record { work = x; next = none }))
      (same : (a : Ptr) → (a == l) ≡ false → (a == p) ≡ false → g a ≡ h a) where
    hang-Chain :
        {first : Option Ptr} {cells : Cells}
        → Chain h first cells
        → last_of cells ≡ some l
        → has p cells ≡ false
        → Chain g first (cells ++ (p, x) ∷ [])
    unfolding has last_of
    hang-Chain stop e out = absurd cc
    hang-Chain (node {p = q} f out' stop) e out =
        node (ground (arith, f, e, at_last, new_last)) (ground arith) (node new refl stop)
    hang-Chain (node {p = q} f out' (node {p = r} {x = z} {cells = cells} f' out'' c)) e out =
        node (ground (arith, f, same q, last_of-has l ((r, z) ∷ cells) e))
          (ground (arith, has-append q p x cells)) (hang-Chain (node f' out'' c) e (ground arith))

-- Hanging a new node behind the last one.
pub hang :
    (h : Heap) (first : Option Ptr) (cells : Cells) (l p : Ptr) (x : Work)
    → Chain h first cells
    → last_of cells ≡ some l
    → h p ≡ none
    → let made = write h p (some (record { work = x; next = none })) in
      (g : Heap) × (set_next made l p ≡ some g)
      × Chain g first (cells ++ (p, x) ∷ [])
      × ((a : Ptr) → has a (cells ++ (p, x) ∷ []) ≡ false → g a ≡ h a)
unfolding set_next write
hang h first cells l p x c e unused =
    let (y, at_last) = last-node l c e in
    let apart : (l == p) ≡ false = ground (arith, at_last, unused) in
    let made = write h p (some (record { work = x; next = none })) in
    let g = write made l (some (record { work = y; next = some p })) in
    (
      g,
      rw (apart, at_last) refl,
      hang-Chain g l p x y at_last (ground arith) (ground (arith, apart)) (λ a m n. rw (m, n) refl)
          c e (not-has_of_none p c unused),
      λ a out. ground (arith, has-append a p x cells, last_of-has l cells e),
    )
