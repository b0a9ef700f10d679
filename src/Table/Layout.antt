-- ===== src/Table/Layout.antt =====
-- common/table.cpp: the widths that addOneItem keeps.
use cpufb.Base.{
  ℕ, zero, suc, ◌+◌, ◌^◌, ◌⊎◌, ◌≤◌, ◌<◌, ◌≡◌, refl, ap, ◌∙◌, if◌then◌else◌, List, [], ◌∷◌, ◌++◌,
  none, some, inl, inr, Bool-cases, arith, Bytes, length, replicate, All, All-append,
  length-replicate, ltb,
}
use cpufb.Integers.{ℤ, pos, negsuc, to_int, to_int-small, int_lt}
use cpufb.Table.{Table, empty, set_column_num, widen, add_one_item}

-- A width of at least so many characters.
abbrev pub Reaches : ℕ → ℤ → Type 0
Reaches n (pos v) = n ≤ v
Reaches n (negsuc v) = ⊥

-- The first `n` cells fit below their widths with a blank on each side, but for those whose size
-- with the two blanks is no `int`.
abbrev pub Fits : ℕ → List ℤ → List Bytes → Type 0
Fits zero ws cells = Unit
Fits (suc n) [] cells = ⊥
Fits (suc n) (w ∷ ws) [] = ⊥
Fits (suc n) (w ∷ ws) (c ∷ cells) =
    ((2 ^ 31 ≤ length c + 2) ⊎ Reaches (length c + 2) w) × Fits n ws cells

pub record IsValid (t : Table) : Type 0 where
  pub widths : length t.col_widths ≡ t.col
  pub wide : All (Reaches 2) t.col_widths
  pub fits : All (Fits t.col t.col_widths) t.contents

-- Widths only grow.
abbrev Grows : List ℤ → List ℤ → Type 0
Grows [] vs = Unit
Grows (w ∷ ws) [] = ⊥
Grows (w ∷ ws) (v ∷ vs) = ((n : ℕ) → Reaches n w → Reaches n v) × Grows ws vs

Reaches-more :
    (c : Bytes) (w v : ℤ)
    → ((n : ℕ) → Reaches n w → Reaches n v)
    → (2 ^ 31 ≤ length c + 2) ⊎ Reaches (length c + 2) w
    → (2 ^ 31 ≤ length c + 2) ⊎ Reaches (length c + 2) v
Reaches-more c w v g (inl h) = inl h
Reaches-more c w v g (inr h) = inr (g (length c + 2) h)

Fits-Grows :
    (n : ℕ) (ws vs : List ℤ) (cells : List Bytes) → Grows ws vs → Fits n ws cells → Fits n vs cells
Fits-Grows zero ws vs cells g f = tt
Fits-Grows (suc n) [] vs cells g f = absurd f
Fits-Grows (suc n) (w ∷ ws) [] cells g f = absurd g
Fits-Grows (suc n) (w ∷ ws) (v ∷ vs) [] g f = absurd f
Fits-Grows (suc n) (w ∷ ws) (v ∷ vs) (c ∷ cells) g f =
    (Reaches-more c w v g.0 f.0, Fits-Grows n ws vs cells g.1 f.1)

All-Grows :
    (n : ℕ) (ws vs : List ℤ) (rows : List (List Bytes))
    → Grows ws vs
    → All (Fits n ws) rows
    → All (Fits n vs) rows
All-Grows n ws vs [] g h = tt
All-Grows n ws vs (r ∷ rows) g h = (Fits-Grows n ws vs r g h.0, All-Grows n ws vs rows g h.1)

Grows-refl : (ws : List ℤ) → Grows ws ws
Grows-refl [] = tt
Grows-refl (w ∷ ws) = (λ n h. h, Grows-refl ws)

widen_short :
    (n : ℕ) (ws : List ℤ) (cells : List Bytes) → length cells < n → widen n ws cells ≡ none
unfolding widen
widen_short zero ws cells h = absurd (omega arith)
widen_short (suc n) [] cells h = refl
widen_short (suc n) (w ∷ ws) [] h = refl
widen_short (suc n) (w ∷ ws) (c ∷ cells) h = rw (widen_short n ws cells (omega arith))

-- The wider of two widths.
wider : ℤ → ℤ → ℤ
wider w size = if int_lt w size then size else w

wider-more : (w size : ℤ) (n : ℕ) → Reaches n w → Reaches n (wider w size)
unfolding wider int_lt
wider-more (pos w) (pos size) n h = ground (arith, h)
wider-more (pos w) (negsuc size) n h = h
wider-more (negsuc w) size n h = absurd h

wider-Reaches : (w : ℤ) (m : ℕ) → Reaches 2 w → Reaches m (wider w (pos m))
unfolding wider int_lt
wider-Reaches (pos w) m h = ground (arith, h)
wider-Reaches (negsuc w) m h = absurd h

wider-cell :
    (w : ℤ) (c : Bytes)
    → Reaches 2 w
    → (2 ^ 31 ≤ length c + 2) ⊎ Reaches (length c + 2) (wider w (to_int (length c + 2)))
wider-cell w c h = elim (Bool-cases (ltb (length c + 2) (2 ^ 31))) [
  | inl k ↦
      let small : length c + 2 < 2 ^ 31 = ground (arith, k) in
      inr (rw (to_int-small (length c + 2) small) (wider-Reaches w (length c + 2) h))
  | inr k ↦ inl (ground (arith, k))
]

-- `widen` succeeds when there are enough cells and widths, and makes the cells fit.
record Widened (n : ℕ) (ws : List ℤ) (cells : List Bytes) (vs : List ℤ) : Type 0 where
  done : widen n ws cells ≡ some vs
  same : length vs ≡ length ws
  grows : Grows ws vs
  wide : All (Reaches 2) vs
  fits : Fits n vs cells

widen-Widened :
    (n : ℕ) (ws : List ℤ) (cells : List Bytes)
    → n ≤ length ws
    → n ≤ length cells
    → All (Reaches 2) ws
    → (vs : List ℤ) × Widened n ws cells vs
unfolding widen wider
widen-Widened zero ws cells h k a =
    (ws, record { done = refl; same = refl; grows = Grows-refl ws; wide = a; fits = tt })
widen-Widened (suc n) [] cells h k a = absurd (omega arith)
widen-Widened (suc n) (w ∷ ws) [] h k a = absurd (omega arith)
widen-Widened (suc n) (w ∷ ws) (c ∷ cells) h k a =
    let (vs, r) = widen-Widened n ws cells (omega arith) (omega arith) a.1 in
    let size = to_int (length c + 2) in
    (
      wider w size ∷ vs,
      record {
        done = rw r.done refl;
        same = ap suc r.same;
        grows = (wider-more w size, r.grows);
        wide = (wider-more w size 2 a.0, r.wide);
        fits = (wider-cell w c a.0, r.fits);
      },
    )

empty-IsValid : IsValid empty
unfolding empty
empty-IsValid = record { widths = refl; wide = tt; fits = tt }

replicate-Reaches : (n : ℕ) → All (Reaches 2) (replicate n (pos 2))
replicate-Reaches zero = tt
replicate-Reaches (suc n) = (omega arith, replicate-Reaches n)

-- Setting the number of columns of a table with no rows.
pub set_column_num-IsValid : (t : Table) (n : ℕ) → t.contents ≡ [] → IsValid (set_column_num t n)
unfolding set_column_num
set_column_num-IsValid t n e = record {
  widths = length-replicate n (pos 2);
  wide = replicate-Reaches n;
  fits = rw e tt;
}

-- Adding a row with at least `col` cells succeeds, appends the row, and keeps the invariant: each
-- column has a width of at least 2, and each cell of a column is by at least two shorter than the
-- width of the column, unless its size plus two is no `int`.
pub add_one_item-IsValid :
    (t : Table) (item : List Bytes)
    → IsValid t
    → t.col ≤ length item
    → (u : Table) × (add_one_item t item ≡ some u)
      × (u.col ≡ t.col)
      × (u.contents ≡ t.contents ++ item ∷ [])
      × IsValid u
unfolding add_one_item
add_one_item-IsValid t item v h =
    let (ws, r) = widen-Widened t.col t.col_widths item (omega (arith, v.widths)) h v.wide in
    let u : Table = record t { contents = t.contents ++ item ∷ []; col_widths = ws } in
    (
      u,
      rw r.done,
      refl,
      refl,
      record {
        widths = r.same ∙ v.widths;
        wide = r.wide;
        fits =
            All-append _ t.contents _ (All-Grows t.col _ ws t.contents r.grows v.fits) (r.fits, tt);
      },
    )

-- A row with fewer cells than there are columns is a read out of bounds.
pub add_one_item-short :
    (t : Table) (item : List Bytes) → length item < t.col → add_one_item t item ≡ none
unfolding add_one_item
add_one_item-short t item h = rw (widen_short t.col t.col_widths item h)
