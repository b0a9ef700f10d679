-- ===== src/ThreadPool/Tally.antt =====
-- Sums and predicates over the workers of the pool, for the proofs about it.
use cpufb.Base.{ℕ, ◌+◌, ◌≤◌, ◌≡◌, refl, List, [], ◌∷◌, ◌++◌, arith, All, length}
use cpufb.ThreadPool.Machine.{Worker, Phase}
use cpufb.ThreadPool.Invariant.{tally}

pub tally-append :
    (f : Phase → ℕ) (xs ys : List Worker) → tally f (xs ++ ys) ≡ tally f xs + tally f ys
tally-append f [] ys = omega arith
tally-append f (x ∷ xs) ys = omega (arith, tally-append f xs ys)

pub tally_at :
    (f : Phase → ℕ) (xs : List Worker) (w : Worker) (ys : List Worker)
    → tally f (xs ++ w ∷ ys) ≡ f w.phase + (tally f xs + tally f ys)
tally_at f xs w ys = omega (arith, tally-append f xs (w ∷ ys))

pub All-split {ℓ} :
    (P : Worker → Type ℓ) (xs : List Worker) (w : Worker) (ys : List Worker)
    → All P (xs ++ w ∷ ys)
    → All P xs × P w × All P ys
All-split P [] w ys h = (tt, h.0, h.1)
All-split P (x ∷ xs) w ys h = let r = All-split P xs w ys h.1 in ((h.0, r.0), r.1, r.2)

pub All-join {ℓ} :
    (P : Worker → Type ℓ) (xs : List Worker) (w : Worker) (ys : List Worker)
    → All P xs
    → P w
    → All P ys
    → All P (xs ++ w ∷ ys)
All-join P [] w ys hx h hy = (h, hy)
All-join P (x ∷ xs) w ys hx h hy = (hx.0, All-join P xs w ys hx.1 h hy)

pub All-map {ℓ κ} :
    (P : Worker → Type ℓ) (Q : Worker → Type κ) (xs : List Worker)
    → ((w : Worker) → P w → Q w)
    → All P xs
    → All Q xs
All-map P Q [] f h = tt
All-map P Q (x ∷ xs) f h = (f x h.0, All-map P Q xs f h.1)

pub tally-le :
    (f : Phase → ℕ) (xs : List Worker) → ((ph : Phase) → f ph ≤ 1) → tally f xs ≤ length xs
tally-le f [] le = omega arith
tally-le f (x ∷ xs) le = omega (arith, le x.phase, tally-le f xs le)

-- If every worker is counted, what holds of the counted phases holds of every worker.
pub All-counted {ℓ κ} :
    (f : Phase → ℕ) (P : Worker → Type ℓ) (Q : Worker → Type κ) (xs : List Worker)
    → ((ph : Phase) → f ph ≤ 1)
    → ((w : Worker) → f w.phase ≡ 1 → P w → Q w)
    → tally f xs ≡ length xs
    → All P xs
    → All Q xs
All-counted f P Q [] le g e h = tt
All-counted f P Q (x ∷ xs) le g e h = (
  g x (omega (arith, le x.phase, tally-le f xs le)) h.0,
  All-counted f P Q xs le g (omega (arith, le x.phase, tally-le f xs le)) h.1,
)

-- If no worker is counted, what holds of the other phases holds of every worker.
pub All-uncounted {ℓ κ} :
    (f : Phase → ℕ) (P : Worker → Type ℓ) (Q : Worker → Type κ) (xs : List Worker)
    → ((w : Worker) → f w.phase ≡ 0 → P w → Q w)
    → tally f xs ≡ 0
    → All P xs
    → All Q xs
All-uncounted f P Q [] g e h = tt
All-uncounted f P Q (x ∷ xs) g e h =
    (g x (omega arith) h.0, All-uncounted f P Q xs g (omega arith) h.1)

pub tally-zero : (f : Phase → ℕ) (xs : List Worker) → All (λ w. f w.phase ≡ 0) xs → tally f xs ≡ 0
tally-zero f [] h = refl
tally-zero f (x ∷ xs) h = omega (arith, tally-zero f xs h.1)
