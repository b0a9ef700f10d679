-- ===== src/Table.antt =====
-- common/table.hpp and common/table.cpp: the class Table. The proofs are in the modules below.
pub mod Layout
pub mod Printed
pub mod Narrow
pub mod Reader
pub mod Csv
pub mod Tests
use cpufb.Base.{
  ℕ, zero, suc, ◌+◌, ◌-◌, List, [], ◌∷◌, ◌++◌, Option, none, some, Bool, true, false, not, ◌||◌,
  ◌&&◌, Bytes, codes, ltb, ◌==◌, if◌then◌else◌, ◌>>=◌, length, replicate,
}
use cpufb.Integers.{ℤ, pos, negsuc, to_int, int_lt, int_add}

abbrev pub comma : ℕ
comma = b','

abbrev pub quote : ℕ
quote = b'"'

abbrev pub newline : ℕ
newline = 10

abbrev pub carriage : ℕ
carriage = 13

abbrev pub space : ℕ
space = b' '

-- The number of columns, the width of each, and the rows, oldest first.
pub record Table : Type 0 where
  pub col : ℕ
  pub col_widths : List ℤ
  pub contents : List (List Bytes)

-- The constructor.
unfoldable pub empty : Table
empty = record { col = 0; col_widths = []; contents = [] }

-- `resize` gives `col` widths, and the loop sets each of them to 2.
unfoldable pub set_column_num : Table → ℕ → Table
set_column_num t n = record t { col = n; col_widths = replicate n (pos 2) }

-- The loop over the columns; a cell or a width that is not there is a read out of bounds, `none`.
pub widen : ℕ → List ℤ → List Bytes → Option (List ℤ)
widen zero ws cells = some ws
widen (suc n) [] cells = none
widen (suc n) (w ∷ ws) [] = none
widen (suc n) (w ∷ ws) (c ∷ cells) = do
  rest ← widen n ws cells
  let size = to_int (length c + 2)
  some ((if int_lt w size then size else w) ∷ rest)

pub add_one_item : Table → List Bytes → Option Table
unfolding widen
add_one_item t item = do
  ws ← widen t.col t.col_widths item
  some (record t { contents = t.contents ++ item ∷ []; col_widths = ws })

-- The loop that adds up the widths, in `int`; `none` is a read out of bounds, or an overflow.
pub sum_widths : ℕ → ℤ → List ℤ → Option ℤ
sum_widths zero table_width ws = some table_width
sum_widths (suc n) table_width [] = none
sum_widths (suc n) table_width (w ∷ ws) = do next ← int_add table_width w; sum_widths n next ws

-- A line of as many dashes; a negative number makes the constructor of the string throw.
pub rule_of : ℤ → Option Bytes
rule_of (pos n) = some (replicate n b'-')
rule_of (negsuc n) = none

-- The rounds of a loop that counts up from the first number and ends at the second.
pub rounds : ℤ → ℤ → ℕ
rounds (pos k) (pos end) = end - k
rounds (pos k) (negsuc end) = 0
rounds (negsuc k) (pos end) = end + k + 1
rounds (negsuc k) (negsuc end) = k - end

-- One row of `print` behind its first bar: a blank, the cell, blanks up to the width, a bar.
pub row_text : ℕ → List ℤ → List Bytes → Option Bytes
unfolding rounds
row_text zero ws cells = some []
row_text (suc n) [] cells = none
row_text (suc n) (w ∷ ws) [] = none
row_text (suc n) (w ∷ ws) (c ∷ cells) = do
  rest ← row_text n ws cells
  let blanks = replicate (rounds (to_int (1 + length c)) w) space
  some (space ∷ (c ++ (blanks ++ (b'|' ∷ rest))))

pub row_lines : ℕ → List ℤ → List (List Bytes) → Option (List Bytes)
unfolding row_text
row_lines n ws [] = some []
row_lines n ws (r ∷ rows) = do
  line ← row_text n ws r
  rest ← row_lines n ws rows
  some ((b'|' ∷ line) ∷ rest)

-- The lines that `print` writes.
pub print : Table → Option (List Bytes)
unfolding sum_widths rule_of row_lines
print t = do
  bars ← int_add (pos t.col) (pos 1)
  table_width ← sum_widths t.col bars t.col_widths
  rule ← rule_of table_width
  rows ← row_lines t.col t.col_widths t.contents
  some (rule ∷ (rows ++ rule ∷ []))

-- `find_first_of(",\"\n\r")` finds something.
pub need_quote : Bytes → Bool
need_quote [] = false
need_quote (c ∷ s) = (c == comma || c == quote || c == newline || c == carriage) || need_quote s

-- The loop between the quotes: a quote is doubled.
pub doubled : Bytes → Bytes
doubled [] = []
doubled (c ∷ s) = if c == quote then quote ∷ c ∷ doubled s else c ∷ doubled s

pub write_compact_cell : Bytes → ℕ → Bytes
unfolding need_quote doubled
write_compact_cell cell delimiter =
    if not (delimiter == comma)
    then cell
    else if need_quote cell
    then quote ∷ (doubled cell ++ quote ∷ [])
    else cell

-- The cells of a row; `first` is `j == 0`.
unfoldable pub compact_cells : ℕ → Bool → ℕ → List Bytes → Option Bytes
unfolding write_compact_cell
compact_cells delimiter first zero cells = some []
compact_cells delimiter first (suc n) [] = none
compact_cells delimiter first (suc n) (c ∷ cells) = do
  rest ← compact_cells delimiter false n cells
  let body = write_compact_cell c delimiter ++ rest
  some (if first then body else delimiter ∷ body)

pub is_empty : Bytes → Bool
is_empty [] = true
is_empty (c ∷ s) = false

-- What stands before the cells of a row: "section" on the first row, the prefix on the others.
pub row_prefix : ℕ → ℕ → Bool → Bytes → Bytes
unfolding write_compact_cell is_empty
row_prefix col delimiter first prefix =
    if is_empty prefix
    then []
    else write_compact_cell (if first then codes "section" else prefix) delimiter
      ++ (if ltb 0 col then delimiter ∷ [] else [])

unfoldable pub compact_rows : ℕ → ℕ → Bytes → Bool → List (List Bytes) → Option Bytes
unfolding row_prefix compact_cells
compact_rows col delimiter prefix first [] = some []
compact_rows col delimiter prefix first (r ∷ rows) = do
  cells ← compact_cells delimiter true col r
  rest ← compact_rows col delimiter prefix false rows
  some (row_prefix col delimiter first prefix ++ (cells ++ (newline ∷ rest)))

unfoldable pub write_compact : Table → ℕ → Bytes → Option Bytes
unfolding compact_rows
write_compact t delimiter prefix = compact_rows t.col delimiter prefix true t.contents
