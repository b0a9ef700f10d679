-- ===== src/Table/Reader.antt =====
-- A reader of comma-separated text after RFC 4180, which common/table.cpp is checked against.
-- It is no code of the repository: it says what a consumer of the saved file understands.
use cpufb.Base.{ℕ, List, [], ◌∷◌, ◌++◌, Option, none, some, Bytes, ◌==◌, if◌then◌else◌, ◌>>=◌, ◌||◌}
use cpufb.Table.{comma, quote, newline, carriage}

pub data Mode : Type 0 where
  start bare quoted closing : Mode

-- The cell being read, the cells of its row, and the rows before.
pub record State : Type 0 where
  pub mode : Mode
  pub cell : Bytes
  pub row : List Bytes
  pub rows : List (List Bytes)

abbrev pub at : Mode → Bytes → List Bytes → List (List Bytes) → State
at mode cell row rows = record { mode = mode; cell = cell; row = row; rows = rows }

abbrev pub put : State → Mode → ℕ → State
put s mode c = record s { mode = mode; cell = s.cell ++ c ∷ [] }

abbrev pub end_cell : State → State
end_cell s = at start [] (s.row ++ s.cell ∷ []) s.rows

abbrev pub end_row : State → State
end_row s = at start [] [] (s.rows ++ (s.row ++ s.cell ∷ []) ∷ [])

-- A separator ends the cell, and any other byte is passed on.
abbrev ends : State → ℕ → Option State → Option State
ends s c other =
    if c == comma then some (end_cell s) else if c == newline then some (end_row s) else other

abbrev step_in : Mode → State → ℕ → Option State
step_in start s c = ends s c (
    if c == quote
    then some (record s { mode = quoted })
    else if c == carriage
    then none
    else some (put s bare c))
step_in bare s c = ends s c (if c == quote || c == carriage then none else some (put s bare c))
step_in quoted s c =
    if c == quote then some (record s { mode = closing }) else some (put s quoted c)
step_in closing s c = ends s c (if c == quote then some (put s quoted c) else none)

unfoldable pub step : State → ℕ → Option State
step s c = step_in s.mode s c

unfoldable pub run : State → Bytes → Option State
run s [] = some s
run s (c ∷ text) = do t ← step s c; run t text

-- The text must stop behind a newline.
unfoldable pub finish : State → Option (List (List Bytes))
finish s = elim s.mode [ start ↦ elim s.row [ [] ↦ some s.rows | c ∷ r ↦ none ] | _ ↦ none ]

unfoldable pub read_csv : Bytes → Option (List (List Bytes))
unfolding run step finish
read_csv text = do s ← run (at start [] [] []) text; finish s
