-- ===== src/Table/Printed.antt =====
-- common/table.cpp: the lines that print writes.
use cpufb.Base.{
  ℕ, zero, suc, ◌+◌, ◌-◌, ◌^◌, ◌<◌, ◌≡◌, refl, ap, ◌∙◌, List, [], ◌∷◌, ◌++◌, true, some, inl, inr,
  arith, Bytes, ltb, length, replicate, All, All-append, length-append, length-replicate,
}
use cpufb.Integers.{ℤ, pos, negsuc, to_int-small, in_int, plus, int_add}
use cpufb.Table.{Table, sum_widths, rule_of, rounds, row_text, row_lines, print, space}
use cpufb.Table.Layout.{Reaches, Fits, IsValid}

-- The text of the first `n` cells in columns of these widths: for each a blank, the cell, blanks up
-- to the width, at least one, and a bar.
abbrev pub Drawn : ℕ → List ℤ → List Bytes → Bytes → Type 0
Drawn zero ws cells text = text ≡ []
Drawn (suc n) [] cells text = ⊥
Drawn (suc n) (w ∷ ws) [] text = ⊥
Drawn (suc n) (w ∷ ws) (c ∷ cells) text =
    (blanks : ℕ) × (rest : Bytes) × (text ≡ b' ' ∷ (c ++ (replicate blanks b' ' ++ (b'|' ∷ rest))))
    × (w ≡ pos (1 + length c + blanks))
    × (0 < blanks)
    × Drawn n ws cells rest

-- The lines are those of the rows, in order.
abbrev pub Rows : ℕ → List ℤ → List (List Bytes) → List Bytes → Type 0
Rows n ws [] [] = Unit
Rows n ws [] (l ∷ ls) = ⊥
Rows n ws (r ∷ rs) [] = ⊥
Rows n ws (r ∷ rs) (l ∷ ls) =
    ((text : Bytes) × (l ≡ b'|' ∷ text) × Drawn n ws r text) × Rows n ws rs ls

-- The lines of a table: one for each row, in order, between two rules of dashes, all of one length.
pub record Printed (n : ℕ) (ws : List ℤ) (rows : List (List Bytes)) (out : List Bytes)
    : Type 0 where
  pub width : ℕ
  pub lines : List Bytes
  pub whole : out ≡ replicate width b'-' ∷ (lines ++ replicate width b'-' ∷ [])
  pub drawn : Rows n ws rows lines
  pub same : All (λ l. length l ≡ width) out

-- Cells whose size plus two is an `int`.
abbrev pub Short : List (List Bytes) → Type 0
Short rows = All (All (λ c. length c + 2 < 2 ^ 31)) rows

-- The sum of widths, none of which is below zero.
abbrev pub total : List ℤ → ℕ
total [] = 0
total (pos w ∷ ws) = w + total ws
total (negsuc w ∷ ws) = total ws

sum_widths-total :
    (n at : ℕ) (ws : List ℤ)
    → length ws ≡ n
    → All (Reaches 2) ws
    → at + total ws < 2 ^ 31
    → sum_widths n (pos at) ws ≡ some (pos (at + total ws))
unfolding sum_widths int_add in_int plus
sum_widths-total zero at [] h a b = ap (λ k. some (pos k)) {y = at + 0} (omega arith)
sum_widths-total zero at (w ∷ ws) h a b = absurd (omega arith)
sum_widths-total (suc n) at [] h a b = absurd (omega arith)
sum_widths-total (suc n) at (pos w ∷ ws) h a b =
    let fits : ltb (at + w) (2 ^ 31) ≡ true = ground (arith, b) in
    rw fits (
      sum_widths-total n (at + w) ws (omega arith) a.1 (omega (arith, b))
      ∙ ap (λ k. some (pos k)) {x = at + w + total ws} {y = at + (w + total ws)} (omega arith))
sum_widths-total (suc n) at (negsuc w ∷ ws) h a b = absurd a.0

row_text-Drawn :
    (n : ℕ) (ws : List ℤ) (cells : List Bytes)
    → length ws ≡ n
    → All (λ c. length c + 2 < 2 ^ 31) cells
    → Fits n ws cells
    → (text : Bytes) × (row_text n ws cells ≡ some text)
      × (length text ≡ n + total ws)
      × Drawn n ws cells text
unfolding row_text rounds
row_text-Drawn zero [] cells h s f = ([], refl, omega arith, refl)
row_text-Drawn zero (w ∷ ws) cells h s f = absurd (omega arith)
row_text-Drawn (suc n) [] cells h s f = absurd f
row_text-Drawn (suc n) (w ∷ ws) [] h s f = absurd f
row_text-Drawn (suc n) (w ∷ ws) (c ∷ cells) h s (inl k, f) = absurd (omega (arith, k, s.0))
row_text-Drawn (suc n) (negsuc w ∷ ws) (c ∷ cells) h s (inr k, f) = absurd k
row_text-Drawn (suc n) (pos w ∷ ws) (c ∷ cells) h s (inr k, f) =
    let (text, e, size, d) = row_text-Drawn n ws cells (omega arith) s.1 f in
    let blanks = w - (1 + length c) in
    let pad = replicate blanks space in
    (
      space ∷ (c ++ (pad ++ (b'|' ∷ text))),
      rw (e, to_int-small (1 + length c) (omega (arith, s.0))) refl,
      omega (
        arith,
        length-append c (pad ++ (b'|' ∷ text)),
        length-append pad (b'|' ∷ text),
        length-replicate blanks space,
        k,
        size,
      ),
      (
        blanks,
        text,
        refl,
        ap pos {y = 1 + length c + blanks} (omega (arith, k)),
        omega (arith, k),
        d,
      ),
    )

row_lines-Rows :
    (n : ℕ) (ws : List ℤ) (rows : List (List Bytes))
    → length ws ≡ n
    → Short rows
    → All (Fits n ws) rows
    → (lines : List Bytes) × (row_lines n ws rows ≡ some lines)
      × Rows n ws rows lines
      × All (λ l. length l ≡ n + 1 + total ws) lines
unfolding row_lines
row_lines-Rows n ws [] h s f = ([], refl, tt, tt)
row_lines-Rows n ws (r ∷ rows) h s f =
    let (text, e, k, d) = row_text-Drawn n ws r h s.0 f.0 in
    let (lines, e', ds, all) = row_lines-Rows n ws rows h s.1 f.1 in
    ((b'|' ∷ text) ∷ lines, rw (e, e') refl, ((text, refl, d), ds), (omega (arith, k), all))

-- A valid table is printed where the size of each cell plus two, and the number of columns plus one
-- and the widths together, are below 2 ^ 31: as one line for each of its rows, in order, between two
-- rules of dashes, all of the same length. In the line of a row each cell stands between a blank and
-- the blanks, at least one, that fill it up to the width of its column.
pub print-aligned :
    (t : Table)
    → IsValid t
    → Short t.contents
    → t.col + 1 + total t.col_widths < 2 ^ 31
    → (lines : List Bytes) × (print t ≡ some lines) × Printed t.col t.col_widths t.contents lines
unfolding print rule_of int_add in_int plus
print-aligned t v s h =
    let n = t.col + 1 + total t.col_widths in
    let bars : ltb (t.col + 1) (2 ^ 31) ≡ true = ground (arith, h) in
    let sum = sum_widths-total t.col (t.col + 1) t.col_widths v.widths v.wide h in
    let (lines, e, d, all) = row_lines-Rows t.col t.col_widths t.contents v.widths s v.fits in
    let rule = replicate n b'-' in
    (
      rule ∷ (lines ++ rule ∷ []),
      rw (bars, sum, e) refl,
      record {
        width = n;
        lines = lines;
        whole = refl;
        drawn = d;
        same = (length-replicate n b'-', All-append _ lines _ all (length-replicate n b'-', tt));
      },
    )
