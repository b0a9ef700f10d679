-- ===== src/Cli/Report.antt =====
-- common/cli.cpp: the tables that are printed and the file that is saved. Whether the file opens, and
-- the table with the system information, if there is one, are arguments.
use cpufb.Base.{
  List, [], ◌∷◌, ◌++◌, Option, none, some, Bool, true, false, not, ◌>>=◌, Bytes, codes,
  if◌then◌else◌, ltb, length,
}
use cpufb.Table.{Table, empty, set_column_num, add_one_item, print, write_compact, comma, newline}
use cpufb.Text.StringSet.{insert}
use cpufb.Cli.Options.{BenchmarkInfo, BenchmarkFilter, SaveOptions, SaveFormat, txt, csv}
use cpufb.Cli.Arguments.{test_categories}
use cpufb.Cli.Filter.{should_run_test, is_compute_instruction_candidate}
use cpufb.Cli.Catalog.{is_compute}

-- A table with the name of its section.
abbrev pub Section : Type 0
Section = Bytes × Table

unfoldable pub csv_text : List Section → Option Bytes
csv_text [] = some []
csv_text (section ∷ sections) = do
  text ← write_compact section.1 comma section.0
  rest ← csv_text sections
  some (text ++ rest)

-- `first` is `i == 0`.
unfoldable pub txt_text : Bool → List Section → Option Bytes
txt_text first [] = some []
txt_text first (section ∷ sections) = do
  text ← write_compact section.1 9 []
  rest ← txt_text false sections
  some (
      (if first then [] else newline ∷ [])
      ++ b'[' ∷ section.0
      ++ codes "]"
      ++ newline ∷ text
      ++ rest)

unfoldable pub sections_text : SaveFormat → List Section → Option Bytes
unfolding csv_text txt_text
sections_text csv sections = csv_text sections
sections_text txt sections = txt_text true sections

-- What save_table_sections does: nothing, a message, or a file with the text.
pub data Saved : Type 0 where
  disabled open_failed : Saved
  saved : Bytes → Saved

abbrev pub with_system : Option Table → List Section → List Section
with_system none sections = sections
with_system (some table) sections = (codes "system", table) ∷ sections

unfoldable pub save_table_sections : Bool → Option Table → SaveOptions → List Section → Option Saved
unfolding sections_text
save_table_sections opens system o sections =
    let text = (do t ← sections_text o.format (with_system system sections); some (saved t)) in
    if not o.enabled then some disabled else if not opens then some open_failed else text

-- The loop over the categories: the tables whose test runs, with the names of their categories.
unfoldable pub selected : BenchmarkFilter → List Bytes → List Table → List Section
selected filter [] tables = []
selected filter (name ∷ names) [] = []
selected filter (name ∷ names) (table ∷ tables) =
    let rest = selected filter names tables in
    if should_run_test filter name then (name, table) ∷ rest else rest

unfoldable pub print_sections : List Section → Option (List Bytes)
print_sections [] = some []
print_sections (section ∷ sections) = do
  lines ← print section.1
  rest ← print_sections sections
  some (lines ++ rest)

-- The printed lines and the file, or the message on too few tables.
pub data Printed : Type 0 where
  incomplete : Printed
  printed : List Bytes → Saved → Printed

unfoldable pub print_and_save_benchmark_tables :
    Bool → Option Table → BenchmarkFilter → SaveOptions → List Table → Option Printed
unfolding print_sections
print_and_save_benchmark_tables opens system filter o tables =
    let sections = selected filter test_categories tables in
    let result = (do
      lines ← print_sections sections
      file ← save_table_sections opens system o sections
      some (printed lines file)) in
    if ltb (length tables) (length test_categories) then some incomplete else result

-- The set of the ISA names of the compute benchmarks, as they are written.
unfoldable pub isa_categories : List BenchmarkInfo → List Bytes → List Bytes
isa_categories [] isas = isas
isa_categories (item ∷ items) isas =
    isa_categories items (if is_compute item then insert item.isa isas else isas)

abbrev pub indented : List Bytes → List Bytes
indented [] = []
indented (line ∷ lines) = (codes "  " ++ line) ∷ indented lines

unfoldable pub print_benchmark_categories : List BenchmarkInfo → List Bytes
unfolding isa_categories
print_benchmark_categories catalog =
    codes "Test categories:" ∷ indented test_categories
    ++ codes "ISA categories:" ∷ indented (isa_categories catalog [])

unfoldable pub instruction_rows : Table → List BenchmarkInfo → Option Table
instruction_rows table [] = some table
instruction_rows table (item ∷ items) = do
  next ←
      if is_compute_instruction_candidate item
      then add_one_item table (item.isa ∷ item.instruction ∷ item.metric ∷ [])
      else some table
  instruction_rows next items

unfoldable pub print_benchmark_instructions : List BenchmarkInfo → Option (List Bytes)
unfolding instruction_rows
print_benchmark_instructions catalog = do
  head ←
      add_one_item (set_column_num empty 3)
        (codes "Instruction Set" ∷ codes "Core Computation" ∷ codes "Metric" ∷ [])
  table ← instruction_rows head catalog
  print table
