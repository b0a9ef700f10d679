-- ===== src/Table/Csv.antt =====
-- common/table.cpp: what writeCompact writes with a comma, under the reader.
use cpufb.Base.{
  ℕ, ltb, zero, suc, ◌≤◌, ◌<◌, ◌≡◌, refl, ◌∙◌, List, [], ◌∷◌, ◌++◌, some, arith, Bytes, codes, true,
  false, Bool, Bool-cases, inl, inr, append_assoc, append-nil, if◌then◌else◌, length, take, All,
  ◌⊎◌, ◌≢◌,
}
use cpufb.Table.{
  Table, comma, quote, newline, need_quote, doubled, write_compact_cell, compact_cells, is_empty,
  row_prefix, compact_rows, write_compact,
}
use cpufb.Table.Reader.{start, bare, quoted, closing, at, run, step, read_csv}

-- Bytes that need no quotes are read as they are.
run-bare :
    (s text cell : Bytes) (row : List Bytes) (rows : List (List Bytes))
    → need_quote s ≡ false
    → run (at bare cell row rows) (s ++ text) ≡ run (at bare (cell ++ s) row rows) text
unfolding run step need_quote
run-bare [] text cell row rows h = rw append-nil
run-bare (c ∷ s) text cell row rows h =
    ground (arith, run-bare s text (cell ++ c ∷ []) row rows, append_assoc cell (c ∷ []) s)

-- Doubled quotes inside quotes are read as single ones.
run-doubled :
    (s text cell : Bytes) (row : List Bytes) (rows : List (List Bytes))
    → run (at quoted cell row rows) (doubled s ++ text) ≡ run (at quoted (cell ++ s) row rows) text
unfolding run step doubled
run-doubled [] text cell row rows = rw append-nil
run-doubled (c ∷ s) text cell row rows =
    ground (arith, run-doubled s text (cell ++ c ∷ []) row rows, append_assoc cell (c ∷ []) s)

-- A written cell and the separator behind it.
run-plain_comma :
    (c text : Bytes) (row : List Bytes) (rows : List (List Bytes))
    → need_quote c ≡ false
    → run (at start [] row rows) (c ++ comma ∷ text) ≡ run (at start [] (row ++ c ∷ []) rows) text
unfolding run step need_quote
run-plain_comma [] text row rows h = refl
run-plain_comma (b ∷ c) text row rows h =
    ground (arith, run-bare c (comma ∷ text) (b ∷ []) row rows)

run-plain_newline :
    (c text : Bytes) (row : List Bytes) (rows : List (List Bytes))
    → need_quote c ≡ false
    → run (at start [] row rows) (c ++ newline ∷ text)
      ≡ run (at start [] [] (rows ++ (row ++ c ∷ []) ∷ [])) text
unfolding run step need_quote
run-plain_newline [] text row rows h = refl
run-plain_newline (b ∷ c) text row rows h =
    ground (arith, run-bare c (newline ∷ text) (b ∷ []) row rows)

-- A cell in quotes, up to the closing quote.
run-quoted :
    (c text : Bytes) (row : List Bytes) (rows : List (List Bytes))
    → run (at start [] row rows) ((quote ∷ (doubled c ++ quote ∷ [])) ++ text)
      ≡ run (at closing c row rows) text
unfolding run step
run-quoted c text row rows = rw (append_assoc, run-doubled c (quote ∷ text) [] row rows) refl

run-cell_comma :
    (c text : Bytes) (row : List Bytes) (rows : List (List Bytes))
    → run (at start [] row rows) (write_compact_cell c comma ++ comma ∷ text)
      ≡ run (at start [] (row ++ c ∷ []) rows) text
unfolding write_compact_cell
run-cell_comma c text row rows = elim (Bool-cases (need_quote c)) [
  | inl e ↦ rw e (run-quoted c (comma ∷ text) row rows ∙ unfold run step in refl)
  | inr e ↦ rw e (run-plain_comma c text row rows e)
]

run-cell_newline :
    (c text : Bytes) (row : List Bytes) (rows : List (List Bytes))
    → run (at start [] row rows) (write_compact_cell c comma ++ newline ∷ text)
      ≡ run (at start [] [] (rows ++ (row ++ c ∷ []) ∷ [])) text
unfolding write_compact_cell
run-cell_newline c text row rows = elim (Bool-cases (need_quote c)) [
  | inl e ↦ rw e (run-quoted c (newline ∷ text) row rows ∙ unfold run step in refl)
  | inr e ↦ rw e (run-plain_newline c text row rows e)
]

-- The text `out` behind a cell that is still to be closed adds the cells `more` and ends the row.
abbrev Adds : Bytes → List Bytes → Type 0
Adds out more =
    (c text : Bytes) (row : List Bytes) (rows : List (List Bytes))
    → run (at start [] row rows) (write_compact_cell c comma ++ (out ++ newline ∷ text))
      ≡ run (at start [] [] (rows ++ (row ++ c ∷ more) ∷ [])) text

compact_cells-Adds :
    (n : ℕ) (cells : List Bytes)
    → n ≤ length cells
    → (out : Bytes) × (compact_cells comma false n cells ≡ some out) × Adds out (take n cells)
unfolding compact_cells
compact_cells-Adds zero cells h = ([], refl, run-cell_newline)
compact_cells-Adds (suc n) [] h = absurd (omega arith)
compact_cells-Adds (suc n) (d ∷ cells) h =
    let (out, e, adds) = compact_cells-Adds n cells (omega arith) in
    let body = write_compact_cell d comma ++ out in
    (
      comma ∷ body,
      rw e,
      λ c text row rows.
          run-cell_comma c (body ++ newline ∷ text) row rows
          ∙ rw (append_assoc, adds d text (row ++ c ∷ []) rows, append_assoc) refl,
    )

-- The rows that a reader should see: the labelling cell, if there is one, and the first `n` cells.
abbrev pub labelled : ℕ → Bool → Bytes → List (List Bytes) → List (List Bytes)
labelled n first prefix [] = []
labelled n first prefix (r ∷ rows) =
    (if is_empty prefix then take n r else (if first then codes "section" else prefix) ∷ take n r)
    ∷ labelled n false prefix rows

-- One written row. Without a prefix the row must have a cell.
record Row (n : ℕ) (first : Bool) (prefix : Bytes) (r : List Bytes) (out : Bytes) : Type 0 where
  written : compact_cells comma true n r ≡ some out
  reads :
      (text : Bytes) (rows : List (List Bytes))
      → run (at start [] [] rows) (row_prefix n comma first prefix ++ (out ++ newline ∷ text))
        ≡ run
            (at start [] [] (
              rows
              ++ (if is_empty prefix
                  then take n r
                  else (if first then codes "section" else prefix) ∷ take n r)
                ∷ []))
            text

Row-bare :
    (n : ℕ) (first : Bool) (r : List Bytes)
    → 0 < n
    → n ≤ length r
    → (out : Bytes) × Row n first [] r out
unfolding compact_cells row_prefix
Row-bare zero first r h k = absurd (omega arith)
Row-bare (suc n) first [] h k = absurd (omega arith)
Row-bare (suc n) first (c ∷ cells) h k =
    let (out, e, adds) = compact_cells-Adds n cells (omega arith) in
    (
      write_compact_cell c comma ++ out,
      record { written = rw e; reads = λ text rows. rw append_assoc (adds c text [] rows) },
    )

Row-labelled :
    (n : ℕ) (first : Bool) (b : ℕ) (prefix : Bytes) (r : List Bytes)
    → n ≤ length r
    → (out : Bytes) × Row n first (b ∷ prefix) r out
unfolding compact_cells row_prefix
Row-labelled zero first b prefix r k = (
  [],
  record {
    written = refl;
    reads = λ text rows.
        rw append-nil
          (run-cell_newline (if first then codes "section" else b ∷ prefix) text [] rows);
  },
)
Row-labelled (suc n) first b prefix [] k = absurd (omega arith)
Row-labelled (suc n) first b prefix (c ∷ cells) k =
    let (out, e, adds) = compact_cells-Adds n cells (omega arith) in
    let label = if first then codes "section" else b ∷ prefix in
    let pos : ltb 0 (suc n) ≡ true = ground arith in
    (
      write_compact_cell c comma ++ out,
      record {
        written = rw e;
        reads = λ text rows.
            rw (pos, append_assoc, append_assoc)
              (run-cell_comma label _ [] rows ∙ adds c text (label ∷ []) rows);
      },
    )

Row-any :
    (n : ℕ) (first : Bool) (prefix : Bytes) (r : List Bytes)
    → (0 < n) ⊎ (prefix ≢ [])
    → n ≤ length r
    → (out : Bytes) × Row n first prefix r out
Row-any n first [] r (inl h) k = Row-bare n first r h k
Row-any n first [] r (inr h) k = absurd (h refl)
Row-any n first (b ∷ prefix) r h k = Row-labelled n first b prefix r k

pub compact_rows-run :
    (n : ℕ) (prefix : Bytes) (first : Bool) (todo : List (List Bytes))
    → (0 < n) ⊎ (prefix ≢ [])
    → All (λ r. n ≤ length r) todo
    → (out : Bytes) × (compact_rows n comma prefix first todo ≡ some out)
      × ((rows : List (List Bytes))
          → run (at start [] [] rows) out
            ≡ some (at start [] [] (rows ++ labelled n first prefix todo)))
unfolding compact_rows run
compact_rows-run n prefix first [] h k = ([], refl, λ rows. rw append-nil)
compact_rows-run n prefix first (r ∷ todo) h k =
    let (out, row) = Row-any n first prefix r h k.0 in
    let (rest, e, reads) = compact_rows-run n prefix false todo h k.1 in
    (
      row_prefix n comma first prefix ++ (out ++ (newline ∷ rest)),
      rw (row.written, e),
      λ rows. row.reads rest rows ∙ reads _ ∙ rw append_assoc refl,
    )

-- Written with commas, a table with a column or with a section name and with enough cells in each
-- row is read back by a CSV reader: each row with its section label and its first `col` cells.
pub read_csv-write_compact :
    (t : Table) (prefix : Bytes)
    → (0 < t.col) ⊎ (prefix ≢ [])
    → All (λ r. t.col ≤ length r) t.contents
    → (out : Bytes) × (write_compact t comma prefix ≡ some out)
      × (read_csv out ≡ some (labelled t.col true prefix t.contents))
unfolding write_compact read_csv
read_csv-write_compact t prefix h k =
    let (out, e, reads) = compact_rows-run t.col prefix true t.contents h k in
    (out, e, rw (reads []) refl)
